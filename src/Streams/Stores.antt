-- ===== src/Streams/Stores.antt =====
-- data_stores/compression.cc, in_memory_store.cc and detail/util.cc: which stream a store opens.
use ml_io.Base.{
  ℕ, ◌-◌, Bool, true, false, ◌&&◌, [], ◌∷◌, length, ltb, drop, ◌==◌, if◌then◌else◌, Bytes,
}
use ml_io.Action.{Result, ok, err, not_supported}
use ml_io.Streams.{MemoryStream}

-- The enumerator `none` of the source is `uncompressed` here.
pub data Compression : Type 0 where
  uncompressed infer gzip bzip2 zip : Compression

abbrev same_text : Bytes → Bytes → Bool
same_text [] [] = true
same_text (a ∷ xs) (b ∷ ys) = if a == b then same_text xs ys else false
same_text _ _ = false

-- The last bytes of a path, from the dot on.
abbrev last_bytes : ℕ → Bytes → Bytes
last_bytes n path = drop (length path - n) path

abbrev starts_with_dot : Bytes → Bool
starts_with_dot [] = false
starts_with_dot (b ∷ bs) = b == b'.'

abbrev long_suffix : Bytes → Compression
long_suffix suffix =
    if same_text suffix (b'.' ∷ b'b' ∷ b'z' ∷ b'2' ∷ [])
    then bzip2
    else if same_text suffix (b'.' ∷ b'z' ∷ b'i' ∷ b'p' ∷ [])
    then zip
    else uncompressed

pub infer_compression : Bytes → Compression
infer_compression path =
    if ltb 3 (length path) && starts_with_dot (last_bytes 3 path)
    then (if same_text (last_bytes 3 path) (b'.' ∷ b'g' ∷ b'z' ∷ []) then gzip else uncompressed)
    else if ltb 4 (length path)
    then long_suffix (last_bytes 4 path)
    else uncompressed

-- A stream as it is, or an inflating one around it.
pub data Opened (S : Type 0) : Type 0 where
  plain inflating : S → Opened S

pub make_inflate_stream : {S : Type 0} → S → Compression → Result (Opened S)
make_inflate_stream s uncompressed = ok (plain s)
make_inflate_stream s infer = ok (plain s)
make_inflate_stream s gzip = ok (inflating s)
make_inflate_stream s bzip2 = err not_supported
make_inflate_stream s zip = err not_supported

pub record InMemoryStore : Type 0 where
  pub chunk : Bytes
  pub compression : Compression

pub make_in_memory_store : Bytes → Compression → Result InMemoryStore
make_in_memory_store chunk infer = err not_supported
make_in_memory_store chunk c = ok (record { chunk = chunk; compression = c })

-- Opened at the start of its chunk.
pub open_read : InMemoryStore → Result (Opened MemoryStream)
open_read s =
    make_inflate_stream (record { source = s.chunk; position = 0; closed = false }) s.compression
