-- ===== src/Action.antt =====
-- Calls that change an object and may throw: `S → Result A × S`. What a call wrote before it threw
-- stays written, as in the C++ code. The exceptions are those of mlio_error.h and its subclasses.
use ml_io.Base.{ℕ}

pub data ReaderFault : Type 0 where
  record_too_large_at record_corrupt_at : ℕ → ReaderFault
  store_corrupt store_unreadable store_system_error : ReaderFault
  store_missing store_denied : ReaderFault

pub data Error : Type 0 where
  record_too_large corrupt_record corrupt_header stream_error not_supported : Error
  out_of_memory : Error
  invalid_argument schema_error invalid_instance : Error
  -- The `std::errc` of a `std::system_error`.
  no_such_file permission_denied other_system_error : Error
  data_reader_error : ReaderFault → Error
  -- An access outside of a container, which C++ leaves undefined.
  undefined_behaviour : Error
  -- A bound of the model on a loop was too small; no exception of the code.
  out_of_fuel : Error

pub data Result {ℓ} (A : Type ℓ) : Type ℓ where
  ok : A → Result A
  err : Error → Result A

abbrev pub Action {ℓ κ} : Type ℓ → Type κ → Type (ℓ ⊔ κ)
Action S A = S → Result A × S

abbrev pub then_call {ℓ} :
    {S : Type 0} {A : Type ℓ} {B : Type 0} → Result A × S → (A → Action S B) → Result B × S
then_call (ok a, s) f = f a s
then_call (err e, s) f = (err e, s)

infixl 5 ◌>>=◌ ◌>>◌
abbrev pub ◌>>=◌ {ℓ} :
    {S : Type 0} {A : Type ℓ} {B : Type 0} → Action S A → (A → Action S B) → Action S B
◌>>=◌ m f s = then_call (m s) f

abbrev pub ◌>>◌ : {S B : Type 0} → Action S (Unit {0}) → Action S B → Action S B
m >> k = m >>= λ _. k

abbrev pub pure {ℓ} : {S : Type 0} {A : Type ℓ} → A → Action S A
pure a s = (ok a, s)

abbrev pub throw : {S A : Type 0} → Error → Action S A
throw e s = (err e, s)

abbrev pub get : {S : Type 0} → Action S S
get s = (ok s, s)

abbrev pub modify : {S : Type 0} → (S → S) → Action S (Unit {0})
modify f s = (ok tt, f s)
