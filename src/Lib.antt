-- ===== src/Lib.antt =====
-- MLIO reads datasets for machine learning. A data reader takes a list of data stores; a record
-- reader cuts the bytes of a store into records; the core instance reader joins records to
-- instances, store by store; wrappers around it keep a range, a shard or a sample of the instances
-- or shuffle them; the batch reader packs them into batches, and the parallel data reader decodes
-- the batches in a flow graph and hands out the examples in order.
--
-- Each file names the code it is about. Paths below are from the repository's root.
--   Action, Records, Records/Slice: exceptions as values, include/mlio/record_readers/record.h and
--     include/mlio/memory/memory_slice.h with its range check.
--   Records/Recordio: src/mlio/record_readers/recordio_record_reader.cc and
--     detail/recordio_header.cc beside it; RoundTrip adds a writer of the format, Chunks what a
--     longer chunk changes.
--   Records/Stream: stream_record_reader.cc of that folder and its detail/default_chunk_reader.cc;
--     Chunks and Content are about any decoder that keeps laws of chunks, and Written about
--     RecordIO. Memory is detail/chunk_reader.cc and detail/in_memory_chunk_reader.cc there.
--   Records/TextLine: detail/text_line.cc, text_line_record_reader.cc and text_record_reader.cc of
--     the same folder.
--   Csv/Format: the fields of `Csv_params` that matter here, and how a writer makes CSV text.
--     Csv/Tokenizer: src/mlio/csv_record_tokenizer.cc. Csv/Reader: csv_record_reader.cc of the
--     record readers; its File joins both. The labels that the source jumps between are the states
--     of a function over the characters that are left.
--   Instances: src/mlio/instance_readers. Peek is the base class, Core the core reader over an
--     abstract record reader, Ranged, Sharded, Sampled and Shuffled the wrappers over an abstract
--     inner reader, Reader the interface between them, Pipeline `make_instance_reader`. Batches is
--     src/mlio/instance_batch_reader.cc. Yields says what a reader delivers, call by call, and is
--     how the specification of each reader is used by the reader around it.
--   Parallel: src/mlio/parallel_data_reader.cc. A step of a thread is what it does under the
--     mutex; a run is any sequence of steps. Inference is how it makes the schema.
--   Tensors: src/mlio/tensor.cc; Bounds is about its check of the data's size, Schema is
--     src/mlio/schema.cc, Coo is src/mlio/coo_tensor_builder.cc and the .h beside it, with what an
--     instance adds in Coordinates and what a refused one leaves in Faults.
--   Parsers: src/mlio/parser.cc, data_type.cc, util/number.cc and util/string.cc there.
--   Csv/Columns, Csv/Header, Csv/Decode: src/mlio/csv_reader.cc, its columns and their schema, what
--     it reads of the header and the first row, and the decoder of a record. Names, Dedupe and
--     Overrides are about the names and the types of columns; Fields says what a record's decoding is on its
--     fields, and Batch what the decoding of a batch is. Csv/Tokenizer/Values and Left are about the
--     tokenizer as these clients call it.
--   Examples: what csv_reader.cc and recordio_protobuf_reader.cc of src/mlio share: the loops over
--     the instances of a batch and the treatment of bad ones; Rows is about any decoder of rows.
--   TextLines: src/mlio/text_line_reader.cc.
--   Protobuf, Protobuf/Decode: src/mlio/recordio_protobuf_reader.cc over the messages of
--     src/mlio/detail/protobuf/recordio_protobuf.proto.
--   Streams, Streams/Utf8: src/mlio/streams/memory_input_stream.cc and utf8_input_stream.cc over a
--     stream that keeps the promises of include/mlio/streams/input_stream.h.
--     Inflate is gzip_inflate_stream.cc and detail/zlib.cc there, Stores compression.cc,
--     in_memory_store.cc and detail/util.cc of src/mlio/data_stores.
--   Tests: runs and instances of the theorems on concrete inputs.
--
-- A stateful operation is a function from a state to a result and a state (Action). Numbers are
-- natural; a 32-bit word and a size of 64 bits keep their bounds where the code depends on them.
-- Loops are recursive on what bounds them: the characters, the stores or the room that is left.
-- Some loops have a bound of their own: the one that doubles the size of a chunk gets the size
-- that it is to reach, which is enough as the first size is not zero; the one over the blank lines
-- or comments, whose rounds each take a byte of the chunk, gets its length; the one over the
-- records of a split payload gets a number that the theorems ask to be at least that of its
-- pieces, or of the records behind the first one where these are wrong; the one that reads chunks
-- until a record is found takes a byte of the stream or meets its end in each round, and two
-- rounds are enough for one that holds a single chunk; the one over the values of a CSV record has
-- two rounds more than the text has characters, as each but the first and the last takes one; the
-- one that looks for a free column name gets two more than the length of the longest name in its
-- map, as each round makes the name longer; the one that converts a text to UTF-8 gets a number of
-- rounds as an argument, and no theorem here is about it.
--
-- Parameters stand for what the code takes from elsewhere: the factory of record readers, the
-- arithmetic on floats in the sampler, the random engine, its distribution and `std::shuffle`, and
-- the flow graph, whose sequencer node hands on messages by the index of their batches; the numbers
-- that Abseil and the C library parse, the text of a number that fmt gives, the parser of protobuf
-- messages, zlib and iconv.
--
-- Not modelled: log messages; the queue of workers that decode one batch, but for what a worker
-- does; the streams and stores that read files, pipes and S3; the Parquet and image readers; memory
-- blocks; the names of text encodings and the bindings. They are I/O, third parties' code or left
-- for later.
pub mod Base
pub mod Action
pub mod Records
pub mod Instances
pub mod Csv
pub mod Tensors
pub mod TextLines
pub mod Parsers
pub mod Examples
pub mod Protobuf
pub mod Streams
pub mod Parallel
pub mod Tests
