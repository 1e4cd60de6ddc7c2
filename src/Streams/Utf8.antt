-- ===== src/Streams/Utf8.antt =====
-- streams/utf8_input_stream.cc: text in some encoding as a stream of UTF-8.
pub mod Content
use ml_io.Base.{
  ℕ, zero, suc, ◌+◌, ◌-◌, Bool, true, false, ◌&&◌, ◌||◌, Option, none, some, List, [], ◌∷◌, ◌++◌,
  length, take, drop, ltb, leb, ◌==◌, if◌then◌else◌, Bytes,
}
use ml_io.Action.{Result, ok, err, stream_error, out_of_fuel, Action}
use ml_io.Streams.{InputStream, fill_buffer}

pub data TextEncoding : Type 0 where
  utf8 utf16_le utf16_be utf32_le utf32_be ascii_latin1 : TextEncoding
  named : Bytes → TextEncoding

abbrev pub is_utf8 : TextEncoding → Bool
is_utf8 utf8 = true
is_utf8 _ = false

-- The length of the marks differs; only four bytes can show one of UTF-32.
unfoldable pub infer_bom_encoding : Bytes → Option TextEncoding
infer_bom_encoding (a ∷ b ∷ c ∷ d ∷ []) =
    if a == 0xEF && b == 0xBB && c == 0xBF
    then some utf8
    else if a == 0 && b == 0 && c == 0xFE && d == 0xFF
    then some utf32_be
    else if a == 0xFF && b == 0xFE && c == 0 && d == 0
    then some utf32_le
    else if a == 0xFE && b == 0xFF
    then some utf16_be
    else if a == 0xFF && b == 0xFE
    then some utf16_le
    else none
infer_bom_encoding (a ∷ b ∷ c ∷ []) =
    if a == 0xEF && b == 0xBB && c == 0xBF
    then some utf8
    else if a == 0xFE && b == 0xFF
    then some utf16_be
    else if a == 0xFF && b == 0xFE
    then some utf16_le
    else none
infer_bom_encoding (a ∷ b ∷ []) =
    if a == 0xFE && b == 0xFF
    then some utf16_be
    else if a == 0xFF && b == 0xFE
    then some utf16_le
    else none
infer_bom_encoding _ = none

-- `iconv`: on the input and the room for output, what is left of the input and what was written.
pub data IconvStatus : Type 0 where
  converted incomplete_char leftover : IconvStatus

pub record Iconv : Type 1 where
  pub Converter : Type 0
  pub open_converter : TextEncoding → Converter
  pub convert : Bytes → ℕ → Converter → Result (IconvStatus × Bytes × Bytes) × Converter

module _ (m : InputStream) (ic : Iconv) where
  -- The buffer: `kept` is what lies before `buffer_pos_` when it is to be filled, `unread` what lies
  -- behind it otherwise, and `capacity` where `buffer_end_` is.
  pub record Utf8Stream : Type 0 where
    pub inner : m.State
    pub is_utf8 : Bool
    pub converter : ic.Converter
    pub remaining_bits : Bytes
    pub should_fill_buffer : Bool
    pub kept : Bytes
    pub unread : Bytes
    pub capacity : ℕ

  abbrev pub open_stream : ℕ → m.State → TextEncoding → Utf8Stream
  open_stream buffer_size inner encoding = record {
    inner = inner;
    is_utf8 = is_utf8 encoding;
    converter = ic.open_converter encoding;
    remaining_bits = [];
    should_fill_buffer = true;
    kept = [];
    unread = [];
    capacity = buffer_size;
  }

  abbrev filled : Utf8Stream → Result Bytes × m.State → Result Bool × Utf8Stream
  filled s (err e, inner) = (err e, record s { inner = inner })
  filled s (ok (b ∷ bs), inner) = (
    ok true,
    record s {
      inner = inner;
      should_fill_buffer = false;
      kept = [];
      unread = s.kept ++ b ∷ bs;
      capacity = length s.kept + length (b ∷ bs);
    },
  )
  filled s (ok [], inner) = (
    (if length s.kept == 0 then ok false else err stream_error),
    record s { inner = inner; capacity = length s.kept },
  )

  -- False at the end of the stream; bytes that cannot be converted are an error there.
  pub fill : Action Utf8Stream Bool
  fill s =
      let room = s.capacity - length s.kept in
      if s.should_fill_buffer then filled s (fill_buffer m room room s.inner) else (ok true, s)

  abbrev after_iconv :
      Utf8Stream → Result (IconvStatus × Bytes × Bytes) × ic.Converter → Result Bytes × Utf8Stream
  after_iconv s (err e, c) = (err e, record s { converter = c })
  after_iconv s (ok (incomplete_char, rest, out), c) =
      (ok out, record s { converter = c; should_fill_buffer = true; kept = rest; unread = [] })
  after_iconv s (ok (leftover, rest, out), c) = (ok out, record s { converter = c; unread = rest })
  after_iconv s (ok (converted, rest, out), c) =
      (ok out, record s { converter = c; should_fill_buffer = true; kept = []; unread = [] })

  abbrev until_output :
      Action Utf8Stream Bytes → Result Bytes × Utf8Stream → Result Bytes × Utf8Stream
  until_output again (ok [], s) = again s
  until_output again r = r

  abbrev if_filled :
      ℕ → Action Utf8Stream Bytes → Result Bool × Utf8Stream → Result Bytes × Utf8Stream
  if_filled n again (ok true, s) =
      until_output again (after_iconv s (ic.convert s.unread n s.converter))
  if_filled n again (ok false, s) = (ok [], s)
  if_filled n again (err e, s) = (err e, s)

  -- The loop of `convert`, by a bound on its rounds.
  pub convert : ℕ → ℕ → Action Utf8Stream Bytes
  convert zero n s = (err out_of_fuel, s)
  convert (suc fuel) n s = if_filled n (convert fuel n) (fill s)

  pub copy_from_remainder : ℕ → Action Utf8Stream Bytes
  copy_from_remainder n s =
      (ok (take n s.remaining_bits), record s { remaining_bits = drop n s.remaining_bits })

  abbrev pub small_piece : ℕ → Result Bytes × Utf8Stream → Result Bytes × Utf8Stream
  small_piece n (err e, s) = (err e, s)
  small_piece n (ok [], s) = (ok [], s)
  small_piece n (ok (b ∷ bs), s) = copy_from_remainder n (record s { remaining_bits = b ∷ bs })

  abbrev pub on_inner : Utf8Stream → Result Bytes × m.State → Result Bytes × Utf8Stream
  on_inner s (r, inner) = (r, record s { inner = inner })

  abbrev pub read_by : ℕ → ℕ → Bytes → Action Utf8Stream Bytes
  read_by fuel n (b ∷ bs) s = copy_from_remainder n s
  read_by fuel n [] s =
      if n == 0
      then (ok [], s)
      else if s.is_utf8
      then on_inner s (m.read n s.inner)
      else if leb 4 n
      then convert fuel n s
      else small_piece n (convert fuel 4 s)

  pub read : ℕ → ℕ → Action Utf8Stream Bytes
  read fuel n s = read_by fuel n s.remaining_bits s

  -- The bytes that were read to find the encoding are served first.
  pub set_preamble : Bytes → Utf8Stream → Utf8Stream
  set_preamble bs s = if s.is_utf8 then record s { remaining_bits = bs } else record s { kept = bs }

  -- A stream that is UTF-8 may be returned as it is.
  pub data Made : Type 0 where
    as_it_is : m.State → Made
    wrapped : Utf8Stream → Made

  abbrev pub wrap : ℕ → m.State → Bytes → TextEncoding → Made
  wrap buffer_size s preamble encoding =
      if m.seekable
      then wrapped (open_stream buffer_size (m.seek_to_start s) encoding)
      else wrapped (set_preamble preamble (open_stream buffer_size s encoding))

  abbrev pub by_mark : ℕ → Bytes → m.State → Option TextEncoding → Made
  by_mark buffer_size preamble s (some encoding) = wrap buffer_size s preamble encoding
  by_mark buffer_size preamble s none =
      if m.seekable then as_it_is (m.seek_to_start s) else wrap buffer_size s preamble utf8

  abbrev pub inferred : ℕ → Result Bytes × m.State → Result Made
  inferred buffer_size (ok preamble, s) =
      ok (by_mark buffer_size preamble s (infer_bom_encoding preamble))
  inferred buffer_size (err e, s) = err e

  pub make_utf8_stream : ℕ → Option TextEncoding → m.State → Result Made
  make_utf8_stream buffer_size (some utf8) s = ok (as_it_is s)
  make_utf8_stream buffer_size (some ascii_latin1) s = ok (as_it_is s)
  make_utf8_stream buffer_size (some encoding) s = ok (wrap buffer_size s [] encoding)
  make_utf8_stream buffer_size none s = inferred buffer_size (fill_buffer m 4 4 s)
