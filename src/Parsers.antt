-- ===== src/Parsers.antt =====
-- parser.cc, util/number.cc and util/string.cc: the parsers of fields. The parsing of Abseil is a
-- parameter.
use ml_io.Base.{
  ℕ, ◌-◌, ◌^◌, Bool, true, false, ◌&&◌, ◌||◌, List, [], ◌∷◌, ltb, ◌==◌, if◌then◌else◌, Bytes,
}
use ml_io.Base.Keys.{contains, bytes_eq}
use ml_io.Tensors.{
  DataType, size, float16, float32, float64, int8, int16, int32, int64, uint8, uint16, uint32,
  uint64, string,
}

pub data ParseResult : Type 0 where
  parsed failed overflowed : ParseResult

pub data ℤ : Type 0 where
  pos negsuc : ℕ → ℤ

abbrev pub less : ℤ → ℤ → Bool
less (pos a) (pos b) = ltb a b
less (pos a) (negsuc b) = false
less (negsuc a) (pos b) = true
less (negsuc a) (negsuc b) = ltb b a

abbrev same_int : ℤ → ℤ → Bool
same_int a b = if less a b then false else if less b a then false else true

-- The least and the greatest number of `w` bits.
pub record Limits : Type 0 where
  pub min : ℤ
  pub max : ℤ

abbrev pub signed : ℕ → Limits
signed w = record { min = negsuc (2 ^ (w - 1) - 1); max = pos (2 ^ (w - 1) - 1) }

abbrev pub unsigned : ℕ → Limits
unsigned w = record { min = pos 0; max = pos (2 ^ w - 1) }

-- Floats, with what is asked of them, and the functions of Abseil: whether the text was parsed, and
-- what is left in the result that was passed by address.
pub record Absl : Type 1 where
  pub Float : Type 0
  pub zero_float : Float
  pub quiet_nan : Float
  pub is_inf : Float → Bool
  pub simple_atof : DataType → Bytes → Float → Bool × Float
  pub simple_atoi : Limits → Bytes → ℤ → Bool × ℤ

-- An element of a tensor.
pub data Value (F : Type 0) : Type 0 where
  whole : ℤ → Value F
  real : F → Value F
  text : Bytes → Value F

pub record ParserOptions : Type 0 where
  pub nan_values : List Bytes
  pub base : ℕ

-- `is_space` of the C locale.
abbrev is_space : ℕ → Bool
is_space c = c == 32 || c == 9 || c == 10 || c == 11 || c == 12 || c == 13

abbrev pub ltrim : Bytes → Bytes
ltrim [] = []
ltrim (c ∷ cs) = if is_space c then ltrim cs else c ∷ cs

pub rtrim : Bytes → Bytes
rtrim [] = []
rtrim (c ∷ cs) = elim (rtrim cs) [ [] ↦ if is_space c then [] else c ∷ [] | d ∷ ds ↦ c ∷ d ∷ ds ]

pub trim : Bytes → Bytes
trim s = rtrim (ltrim s)

pub is_whitespace_only : Bytes → Bool
is_whitespace_only [] = true
is_whitespace_only (c ∷ cs) = if is_space c then is_whitespace_only cs else false

module _ (absl : Absl) where
  open absl use {Float}

  -- What a parser returns and what it leaves in its result.
  abbrev pub Parse : Type 0 → Type 0
  Parse A = A → ParseResult × A

  pub try_parse_float : DataType → List Bytes → Bytes → Parse Float
  try_parse_float dt nan_values s result =
      let (found, v) = absl.simple_atof dt s absl.zero_float in
      if found
      then (if absl.is_inf v then (overflowed, result) else (parsed, v))
      else if contains (trim s) nan_values
      then (parsed, absl.quiet_nan)
      else (failed, result)

  -- For 32 and 64 bits. The base of the options is not used.
  pub try_parse_wide : Limits → Bytes → Parse ℤ
  try_parse_wide l s result =
      let (found, v) = absl.simple_atoi l s (pos 1) in
      if found
      then (parsed, v)
      else if same_int v l.max || same_int v l.min
      then (overflowed, result)
      else (failed, result)

  abbrev fit : Limits → ℤ → ParseResult × ℤ → ParseResult × ℤ
  fit l result (parsed, v) =
      if less v l.min || less l.max v then (overflowed, result) else (parsed, v)
  fit l result (r, v) = (r, result)

  -- For 8 and 16 bits, over 32.
  pub try_parse_narrow : Limits → Limits → Bytes → Parse ℤ
  try_parse_narrow wide l s result = fit l result (try_parse_wide wide s (pos 0))

  abbrev old_whole : Value Float → ℤ
  old_whole (whole z) = z
  old_whole v = pos 0

  abbrev old_real : Value Float → Float
  old_real (real x) = x
  old_real v = absl.zero_float

  abbrev put_whole : ParseResult × ℤ → ParseResult × Value Float
  put_whole (r, z) = (r, whole z)

  abbrev put_real : ParseResult × Float → ParseResult × Value Float
  put_real (r, x) = (r, real x)

  -- `make_parser`: the parser of a data type, on the element that it writes to.
  pub make_parser : ParserOptions → DataType → Bytes → Parse (Value Float)
  make_parser opts size s v = put_whole (try_parse_wide (unsigned 64) s (old_whole v))
  make_parser opts float16 s v = (failed, v)
  make_parser opts float32 s v = put_real (try_parse_float float32 opts.nan_values s (old_real v))
  make_parser opts float64 s v = put_real (try_parse_float float64 opts.nan_values s (old_real v))
  make_parser opts int8 s v = put_whole (try_parse_narrow (signed 32) (signed 8) s (old_whole v))
  make_parser opts int16 s v = put_whole (try_parse_narrow (signed 32) (signed 16) s (old_whole v))
  make_parser opts int32 s v = put_whole (try_parse_wide (signed 32) s (old_whole v))
  make_parser opts int64 s v = put_whole (try_parse_wide (signed 64) s (old_whole v))
  make_parser opts uint8 s v =
      put_whole (try_parse_narrow (unsigned 32) (unsigned 8) s (old_whole v))
  make_parser opts uint16 s v =
      put_whole (try_parse_narrow (unsigned 32) (unsigned 16) s (old_whole v))
  make_parser opts uint32 s v = put_whole (try_parse_wide (unsigned 32) s (old_whole v))
  make_parser opts uint64 s v = put_whole (try_parse_wide (unsigned 64) s (old_whole v))
  make_parser opts string s v = (parsed, text s)

  abbrev is_parsed : {A : Type 0} → ParseResult × A → Bool
  is_parsed (parsed, v) = true
  is_parsed (_, v) = false

  abbrev is_overflowed : {A : Type 0} → ParseResult × A → Bool
  is_overflowed (overflowed, v) = true
  is_overflowed (_, v) = false

  abbrev real_or_text : Bytes → DataType
  real_or_text s =
      if is_parsed (try_parse_float float64 [] s absl.zero_float) then float64 else string

  pub infer_data_type : Bytes → DataType
  infer_data_type [] = string
  infer_data_type (c ∷ cs) =
      let as_signed = try_parse_wide (signed 64) (c ∷ cs) (pos 0) in
      let as_unsigned = try_parse_wide (unsigned 64) (c ∷ cs) (pos 0) in
      if is_parsed as_signed
      then int64
      else if is_overflowed as_signed && is_parsed as_unsigned
      then uint64
      else real_or_text (c ∷ cs)
