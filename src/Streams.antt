-- ===== src/Streams.antt =====
-- input_stream.h and streams/memory_input_stream.cc: streams of bytes. A read names how many bytes
-- there is room for and may return fewer, but none only at the end.
pub mod Inflate
pub mod Stores
pub mod Utf8
use ml_io.Base.{
  ℕ, zero, suc, ◌+◌, ◌-◌, ◌≤◌, ◌<◌, ◌≡◌, refl, sym, ap, Bool, true, false, List, [], ◌∷◌, ◌++◌,
  length, length-take, take, drop, take-append-drop, if◌then◌else◌, ◌==◌, min, Bytes, arith,
}
use ml_io.Action.{Result, ok, err, stream_error, Action}

-- What a stream has still to give is cut into what a read returns and what it has to give then.
pub record ReadsOf {S : Type 0} (rest : S → Bytes) (n : ℕ) (s : S) (r : Result Bytes × S)
    : Type 0 where
  pub piece : Bytes
  pub left : S
  pub returns : r ≡ (ok piece, left)
  pub cut : rest s ≡ piece ++ rest left
  pub fits : length piece ≤ n
  pub at_end : piece ≡ [] → rest s ≡ []

pub record InputStream : Type 1 where
  pub State : Type 0
  pub seekable : Bool
  pub read : ℕ → Action State Bytes
  pub seek_to_start : State → State

-- The documented behaviour of a stream over a given content.
pub record IsStream (m : InputStream) (content : Bytes) : Type 0 where
  pub rest : m.State → Bytes
  pub reads : (n : ℕ) (s : m.State) → 0 < n → ReadsOf rest n s (m.read n s)
  pub seeks : (s : m.State) → m.seekable ≡ true → rest (m.seek_to_start s) ≡ content

-- `Memory_input_stream`: the source, the position and whether it was closed.
pub record MemoryStream : Type 0 where
  pub source : Bytes
  pub position : ℕ
  pub closed : Bool

abbrev advance_position : ℕ → MemoryStream → MemoryStream
advance_position distance s = record s { position = min (s.position + distance) (length s.source) }

unfoldable pub read_memory : ℕ → Action MemoryStream Bytes
read_memory n s =
    if s.closed
    then (err stream_error, s)
    else (ok (take n (drop s.position s.source)), advance_position n s)

unfoldable pub seek_memory : ℕ → Action MemoryStream (Unit {0})
seek_memory position s =
    if s.closed
    then (err stream_error, s)
    else (ok tt, advance_position position (record s { position = 0 }))

pub close_memory : MemoryStream → MemoryStream
close_memory s = record s { source = []; closed = true }

unfoldable pub size_memory : MemoryStream → Result ℕ
size_memory s = if s.closed then err stream_error else ok (length s.source)

-- `fill_buffer` of utf8_input_stream.cc: reads until the buffer is full or the stream ends. Each
-- round but the last takes a byte, so that the room bounds the rounds.
module _ (m : InputStream) where
  abbrev pub append_piece : Bytes → Result Bytes × m.State → Result Bytes × m.State
  append_piece piece (ok bs, s) = (ok (piece ++ bs), s)
  append_piece piece (err e, s) = (err e, s)

  abbrev pub read_on :
      ℕ → (ℕ → Action m.State Bytes) → Result Bytes × m.State → Result Bytes × m.State
  read_on room again (err e, s) = (err e, s)
  read_on room again (ok [], s) = (ok [], s)
  read_on room again (ok (b ∷ bs), s) = append_piece (b ∷ bs) (again (room - length (b ∷ bs)) s)

  unfoldable pub fill_buffer : ℕ → ℕ → Action m.State Bytes
  fill_buffer zero room s = (ok [], s)
  fill_buffer (suc fuel) room s =
      if room == 0 then (ok [], s) else read_on room (fill_buffer fuel) (m.read room s)
