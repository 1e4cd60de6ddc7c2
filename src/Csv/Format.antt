-- ===== src/Csv/Format.antt =====
-- The fields of `Csv_params` that the tokenizer and the record reader use, and CSV text as a writer
-- makes it.
use ml_io.Base.{ℕ, Bool, Option, List, [], ◌∷◌, ◌++◌, ◌≢◌, ◌==◌, if◌then◌else◌, Bytes}

pub record CsvParams : Type 0 where
  pub delimiter : ℕ
  pub quote_char : ℕ
  pub comment_char : Option ℕ
  pub allow_quoted_new_lines : Bool
  pub skip_blank_lines : Bool
  pub max_field_length : Option ℕ
  pub max_line_length : Option ℕ

-- A field is written as it is, or between quotes with its quotes doubled.
pub data Field : Type 0 where
  bare quoted : Bytes → Field

abbrev pub value_of : Field → Bytes
value_of (bare bs) = bs
value_of (quoted bs) = bs

abbrev pub escape : ℕ → Bytes → Bytes
escape q [] = []
escape q (c ∷ cs) = if c == q then q ∷ q ∷ escape q cs else c ∷ escape q cs

abbrev pub field_text : CsvParams → Field → Bytes
field_text p (bare bs) = bs
field_text p (quoted bs) = p.quote_char ∷ escape p.quote_char bs ++ p.quote_char ∷ []

-- A record has a first field and those that follow it.
abbrev pub record_text : CsvParams → Field → List Field → Bytes
record_text p f [] = field_text p f
record_text p f (g ∷ gs) = field_text p f ++ p.delimiter ∷ record_text p g gs

abbrev pub Avoids : ℕ → Bytes → Type 0
Avoids c [] = Unit {0}
Avoids c (b ∷ bs) = (b ≢ c) × Avoids c bs

abbrev pub DoesNotStartWith : ℕ → Bytes → Type 0
DoesNotStartWith c [] = Unit {0}
DoesNotStartWith c (b ∷ bs) = b ≢ c

-- What may stand in a field that is written without quotes.
abbrev pub IsWritable : CsvParams → Field → Type 0
IsWritable p (bare bs) = Avoids p.delimiter bs × DoesNotStartWith p.quote_char bs
IsWritable p (quoted bs) = Unit {0}

abbrev pub AllWritable : CsvParams → List Field → Type 0
AllWritable p [] = Unit {0}
AllWritable p (f ∷ fs) = IsWritable p f × AllWritable p fs
