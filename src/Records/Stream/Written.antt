-- ===== src/Records/Stream/Written.antt =====
-- stream_record_reader.cc over recordio_record_reader.cc: streams of RecordIO records.
use ml_io.Base.{ℕ, suc, ◌^◌, ◌<◌, ap, false, none, List, [], ◌∷◌, length, Bytes}
use ml_io.Records.{Record}
use ml_io.Instances.Yields.{Yields, done, more}
use ml_io.Records.Recordio.{ByteOrder, decode_record}
use ml_io.Records.Recordio.Chunks.{
  decode_record-grow, decode_record-none, decode_record-length, decode_record-fault,
  decode_record-ended, decode_record-nil,
}
use ml_io.Records.Recordio.RoundTrip.{IsKind, write_record, decode_record-write}
use ml_io.Records.Stream.{read_record_core}
use ml_io.Records.Stream.Content.{IsChunked, decode_whole, stream-Yields}

pub decode_record-IsChunked : (host : ByteOrder) → IsChunked (decode_record host)
decode_record-IsChunked host = record {
  grow = λ b more ign x.
      (decode_record-grow host ign false b more none x, decode_record-length host ign b none x);
  wait = λ b x. decode_record-none host b none x;
  fault = λ b more x. decode_record-fault host b more none x;
  ended = λ b x. decode_record-ended host b none x;
  nothing = λ ign. decode_record-nil host ign none;
}

abbrev pub write_records : List Record → Bytes
write_records [] = []
write_records (r ∷ rs) = write_record r (write_records rs)

abbrev pub AllWritable : List Record → Type 0
AllWritable [] = Unit {0}
AllWritable (r ∷ rs) = IsKind r.kind × (length r.payload < 2 ^ 29) × AllWritable rs

whole-Yields :
    (host : ByteOrder) (rs : List Record)
    → AllWritable rs
    → Yields
        (decode_whole (decode_record host) (decode_record-IsChunked host))
        (write_records rs)
        rs
whole-Yields host [] h =
    done (ap (λ z. (z.0, z.1.bits)) (decode_record-nil host false none))
      (ap (λ z. (z.0, z.1.bits)) (decode_record-nil host false none))
whole-Yields host (r ∷ rs) (k, l, hs) =
    more (ap (λ z. (z.0, z.1.bits)) (decode_record-write r (write_records rs) host false none k l))
      (whole-Yields host rs hs)

-- Records with payloads below 2 ^ 29 bytes and kinds of three bits that were written one behind the
-- other are read back from the stream, one by one and then nothing, on a host of either byte order
-- and whatever the chunk size, if it is not zero; the bound on the rounds is above the stream's bytes.
pub write_records-Yields :
    (host : ByteOrder) (fuel n : ℕ) (rs : List Record)
    → 0 < n
    → length (write_records rs) < fuel
    → AllWritable rs
    → Yields
        (read_record_core (decode_record host) (suc fuel))
        (record {
          stream = write_records rs;
          eof = false;
          block_size = none;
          next_chunk_size = n;
          chunk = [];
        })
        rs
write_records-Yields host fuel n rs h l w =
    stream-Yields (decode_record host) (decode_record-IsChunked host) fuel n (write_records rs) h l
      (whole-Yields host rs w)
