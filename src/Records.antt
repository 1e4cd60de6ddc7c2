-- ===== src/Records.antt =====
-- record_readers/record.h: a record is a payload and its place in a split record.
pub mod Slice
pub mod Recordio
pub mod TextLine
pub mod Stream
use ml_io.Base.{ℕ, Bytes}

pub data RecordKind : Type 0 where
  complete begin middle end : RecordKind
  -- A value of the header that no enumerator has.
  unnamed : ℕ → RecordKind

pub record Record : Type 0 where
  pub payload : Bytes
  pub kind : RecordKind
