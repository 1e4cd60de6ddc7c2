-- ===== src/Records/Recordio.antt =====
-- record_readers/recordio_record_reader.cc and detail/recordio_header.{h,cc}: the RecordIO format.
pub mod RoundTrip
pub mod Chunks
use ml_io.Base.{
  ℕ, ◌+◌, ◌-◌, ◌*◌, ◌/◌, ◌%◌, ◌^◌, Bool, true, false, Option, none, some, List, [], ◌∷◌, length,
  take, drop, ltb, ◌==◌, if◌then◌else◌, Bytes,
}
use ml_io.Action.{
  Error, corrupt_header, Result, ok, err, Action, ◌>>=◌, ◌>>◌, pure, throw, get, modify,
}
use ml_io.Records.Slice.{cut_bytes, drop_bytes}
use ml_io.Records.{RecordKind, complete, begin, middle, end, unnamed, Record}

-- The byte order of the host.
pub data ByteOrder : Type 0 where
  little big : ByteOrder

-- Four bytes as the host reads them.
pub word : ByteOrder → ℕ → ℕ → ℕ → ℕ → ℕ
word little a b c d = a + 2 ^ 8 * b + 2 ^ 16 * c + 2 ^ 24 * d
word big a b c d = d + 2 ^ 8 * c + 2 ^ 16 * b + 2 ^ 24 * a

pub reverse_bytes : ℕ → ℕ
reverse_bytes v =
    v / 2 ^ 24 % 2 ^ 8
    + 2 ^ 8 * (v / 2 ^ 16 % 2 ^ 8)
    + 2 ^ 16 * (v / 2 ^ 8 % 2 ^ 8)
    + 2 ^ 24 * (v % 2 ^ 8)

pub little_to_host_order : ByteOrder → ℕ → ℕ
little_to_host_order little v = v
little_to_host_order big v = reverse_bytes v

-- `as_span<const std::uint32_t>`: a rest of fewer than four bytes is not seen.
pub words : ByteOrder → Bytes → List ℕ
words host (a ∷ b ∷ c ∷ d ∷ bits) = word host a b c d ∷ words host bits
words host _ = []

pub magic : ByteOrder → ℕ
magic little = 0xced7230a
magic big = 0x0a23d7ce

abbrev header_of : ByteOrder → List ℕ → Result (Option ℕ)
header_of host (m ∷ d ∷ _) =
    if m == magic host then ok (some (little_to_host_order host d)) else err corrupt_header
header_of host _ = ok none

-- The header is its 32-bit word `data_`.
pub decode_recordio_header : ByteOrder → Bytes → Result (Option ℕ)
unfolding words word magic little_to_host_order reverse_bytes
decode_recordio_header host bits = header_of host (words host bits)

-- `(data_ >> 29U) & 7U`, cast to the enumeration.
pub record_kind : ℕ → RecordKind
record_kind header =
    let k = header / 2 ^ 29 % 2 ^ 3 in
    if k == 0
    then complete
    else if k == 1
    then begin
    else if k == 2
    then middle
    else if k == 3
    then end
    else unnamed k

pub payload_size : ℕ → ℕ
payload_size header = header % 2 ^ 29

abbrev pub header_size : ℕ
header_size = 8

-- `(s + alignment - 1) & ~(alignment - 1)`, the alignment being a power of two.
unfoldable pub align : ℕ → ℕ → ℕ
align s alignment = (s + (alignment - 1)) / alignment * alignment

-- The chunk that a decoder advances, and the record size that it last asked room for.
pub record Chunk : Type 0 where
  pub bits : Bytes
  pub record_size_hint : Option ℕ

abbrev from_result {ℓ} : {A : Type ℓ} → Result A → Action Chunk A
from_result r s = (r, s)

abbrev is_empty : Bytes → Bool
is_empty [] = true
is_empty (b ∷ bs) = false

abbrev pub decode_body : Bool → ℕ → Action Chunk (Option Record)
decode_body ignore_leftover header s =
    let record_size = header_size + align (payload_size header) 4 in
    if ltb (length s.bits) record_size
    then (if ignore_leftover
        then (ok none, record s { record_size_hint = some record_size })
        else (err corrupt_header, s))
    else ◌>>=◌ (from_result (cut_bytes s.bits header_size (payload_size header)))
        (λ payload. do
          rest ← from_result (drop_bytes s.bits record_size)
          modify λ c. record c { bits = rest }
          pure (some (record { payload = payload; kind = record_kind header })))
        s

abbrev decode_header : Bool → Option ℕ → Action Chunk (Option Record)
decode_header ignore_leftover none s =
    if ignore_leftover then (ok none, s) else (err corrupt_header, s)
decode_header ignore_leftover (some header) s = decode_body ignore_leftover header s

pub decode_record : ByteOrder → Bool → Action Chunk (Option Record)
decode_record host ignore_leftover s =
    if is_empty s.bits
    then (ok none, s)
    else ◌>>=◌ (from_result (decode_recordio_header host s.bits)) (decode_header ignore_leftover) s
