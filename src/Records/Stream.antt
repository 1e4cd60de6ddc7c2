-- ===== src/Records/Stream.antt =====
-- stream_record_reader.cc and record_readers/detail/default_chunk_reader.cc: records from a stream
-- that is read in chunks. Blocks of memory are left out but for their size.
pub mod Chunks
pub mod Content
pub mod Memory
pub mod Written
use ml_io.Base.{
  ℕ, zero, suc, ◌+◌, ◌-◌, ◌*◌, Bool, true, false, not, ◌&&◌, Option, none, some, List, [], ◌∷◌,
  ◌++◌, length, take, drop, ◌==◌, ltb, if◌then◌else◌, Bytes,
}
use ml_io.Action.{out_of_fuel, Result, ok, err, Action}
use ml_io.Records.{Record}
use ml_io.Records.Recordio.{Chunk}

-- `stream` is what the input stream has still to give; `block_size` is the size of `chunk_` of the
-- chunk reader, which it gives away at the end; `chunk` is the record reader's.
pub record State : Type 0 where
  pub stream : Bytes
  pub eof : Bool
  pub block_size : Option ℕ
  pub next_chunk_size : ℕ
  pub chunk : Bytes

abbrev pub same_size : Option ℕ → ℕ → Bool
same_size none n = false
same_size (some c) n = c == n

-- A block that holds nothing but leftover, and has the size of the next one, asks for a larger one.
unfoldable pub grown_size : State → ℕ
grown_size s =
    if same_size s.block_size (length s.chunk) && same_size s.block_size s.next_chunk_size
    then s.next_chunk_size * 2
    else s.next_chunk_size

abbrev pub block_left : Bool → ℕ → Option ℕ
block_left eof n = if eof then none else some n

-- `read_chunk` on the leftover, which is the state's chunk. The loop over `read` fills the block
-- unless the stream ends.
unfoldable pub read_chunk : State → State
unfolding grown_size
read_chunk s =
    let room = grown_size s - length s.chunk in
    let eof = ltb (length s.stream) room in
    if s.eof then record s { chunk = [] } else record {
      stream = drop room s.stream;
      eof = eof;
      block_size = block_left eof (grown_size s);
      next_chunk_size = grown_size s;
      chunk = s.chunk ++ take room s.stream;
    }

-- `set_chunk_size_hint`: doubled until the value fits, by a bound on the rounds. A size does not wrap
-- around here, as it would from 2 ^ 63 on.
pub doubled : ℕ → ℕ → ℕ → ℕ
doubled zero value n = n
doubled (suc fuel) value n = if ltb n value then doubled fuel value (n * 2) else n

unfoldable pub set_chunk_size_hint : Option ℕ → State → State
unfolding doubled
set_chunk_size_hint none s = s
set_chunk_size_hint (some value) s = record s {
  next_chunk_size = doubled value value s.next_chunk_size;
}

abbrev pub is_empty : Bytes → Bool
is_empty [] = true
is_empty (c ∷ cs) = false

abbrev pub fresh_chunk : Bytes → Chunk
fresh_chunk b = record { bits = b; record_size_hint = none }

abbrev pub put_chunk : Chunk → State → State
put_chunk c s = set_chunk_size_hint c.record_size_hint (record s { chunk = c.bits })

module _ (decode : Bool → Action Chunk (Option Record)) where
  -- What follows a call of `decode_record`.
  abbrev pub go_on :
      (State → Result (Option Record) × State)
      → State
      → Result (Option Record) × Chunk
      → Result (Option Record) × State
  go_on again s (err e, c) = (err e, put_chunk c s)
  go_on again s (ok (some r), c) = (ok (some r), put_chunk c s)
  go_on again s (ok none, c) = elim (is_empty (read_chunk (put_chunk c s)).chunk) [
    | true ↦ (ok none, read_chunk (put_chunk c s))
    | false ↦ again (read_chunk (put_chunk c s))
  ]

  -- `read_record_core`, by a bound on the rounds of its loop.
  unfoldable pub read_record_core : ℕ → Action State (Option Record)
  unfolding read_chunk set_chunk_size_hint
  read_record_core zero s = (err out_of_fuel, s)
  read_record_core (suc fuel) s =
      go_on (read_record_core fuel) s (decode (not s.eof) (fresh_chunk s.chunk))
