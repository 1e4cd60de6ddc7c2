-- ===== src/Csv.antt =====
-- The CSV format: csv_reader.h's parameters, the record tokenizer and the record reader.
pub mod Format
pub mod Tokenizer
pub mod Columns
pub mod Decode
pub mod Header
pub mod Reader
