-- ===== src/Instances/Shuffled.antt =====
-- shuffled_instance_reader.cc: hands out random instances of a window that slides over the dataset.
pub mod Removal
pub mod Laws
use ml_io.Base.{
  ℕ, zero, suc, ◌+◌, ◌-◌, ◌%◌, ◌^◌, Bool, true, false, not, ◌&&◌, Option, none, some, List, [], ◌∷◌,
  ◌++◌, length, set, get_elem?, ◌≡◌, refl, ◌==◌, ltb, if◌then◌else◌,
}
use ml_io.Action.{Result, ok, err, undefined_behaviour, Action, ◌>>=◌, ◌>>◌, pure, get, modify}

-- `std::size_t` has 64 bits.
abbrev pub size_max : ℕ
size_max = 2 ^ 64 - 1

-- What the code takes from <random> and <algorithm>: the engine's state, seeding, a draw from the
-- uniform distribution between 0 and a maximum, and `std::shuffle`.
pub record Random (A : Type 0) : Type 1 where
  pub Engine : Type 0
  pub seed : ℕ → Engine
  pub draw : ℕ → Engine → ℕ × Engine
  pub shuffle : List A → Engine → List A × Engine

-- `seed_` is `shuffle_seed`, or a value of the random device where that is not given.
pub record Shuffle : Type 0 where
  pub shuffle_window : ℕ
  pub seed : ℕ
  pub reshuffle_each_epoch : Bool

-- The member `shuffle_window_`, where zero stands for a window without bound.
pub window : Shuffle → ℕ
window p = if p.shuffle_window == 0 then size_max else p.shuffle_window

-- The maximum of `dist_`, `shuffle_window_ - 1` before that change, in 64 bits.
pub dist_max : Shuffle → ℕ
dist_max p = (p.shuffle_window + (2 ^ 64 - 1)) % 2 ^ 64

pub record State (S A R : Type 0) : Type 0 where
  pub buffer : List A
  pub inner_has_instance : Bool
  pub mt : R
  pub inner : S

module _ {ℓ} {A : Type ℓ} where
  -- `buffer_.back()` and `buffer_.pop_back()`.
  abbrev pub back : List A → Option A
  back [] = none
  back (x ∷ []) = some x
  back (x ∷ y ∷ xs) = back (y ∷ xs)

  abbrev pub pop_back : List A → List A
  pop_back [] = []
  pop_back (x ∷ []) = []
  pop_back (x ∷ y ∷ xs) = x ∷ pop_back (y ∷ xs)

  -- The code's removal at an index: the last element moves into the gap.
  abbrev move_back_to : ℕ → List A → Option A → List A
  move_back_to i b none = b
  move_back_to i b (some z) = if i == length b - 1 then b else set b i z

  pub remove_at : ℕ → List A → List A
  remove_at i b = pop_back (move_back_to i b (back b))

module _ {S A R : Type 0} where
  abbrev put_inner {ℓ} : {B : Type ℓ} → State S A R → Result B × S → Result B × State S A R
  put_inner s (r, i) = (r, record s { inner = i })

  abbrev on_inner {ℓ} : {B : Type ℓ} → Action S B → Action (State S A R) B
  on_inner m s = put_inner s (m s.inner)

  abbrev set_buffer : State S A R → List A × R → State S A R
  set_buffer s (b, r) = record s { buffer = b; inner_has_instance = false; mt = r }

  -- The loop's body, by the room that is left below the window: a round fills one place of it, or
  -- meets the end of the inner reader, which shuffles the buffer.
  pub fill : (List A → R → List A × R) → Action S (Option A) → ℕ → Action (State S A R) (Unit {0})
  fill shuffle inner zero = pure tt
  fill shuffle inner (suc room) = do
    instance_read ← on_inner inner
    elim instance_read [
      | none ↦ modify (λ s. set_buffer s (shuffle s.buffer s.mt))
      | some x ↦ modify (λ s. record s { buffer = s.buffer ++ x ∷ [] }) >> fill shuffle inner room
    ]

module _ {S A : Type 0} (rnd : Random A) where
  abbrev fill_buffer_from_inner :
      Action S (Option A) → Shuffle → Action (State S A rnd.Engine) (Unit {0})
  fill_buffer_from_inner inner p s =
      if s.inner_has_instance
      then fill rnd.shuffle inner (window p - length s.buffer) s
      else (ok tt, s)

  abbrev pop_at : State S A rnd.Engine → ℕ → Option A → Result (Option A) × State S A rnd.Engine
  pop_at s i none = (err undefined_behaviour, s)
  pop_at s i (some x) = (ok (some x), record s { buffer = remove_at i s.buffer })

  pub pop_random_instance_from_buffer : Shuffle → Action (State S A rnd.Engine) (Option A)
  pop_random_instance_from_buffer p s =
      let (random_idx, r) = rnd.draw (dist_max p) s.mt in
      pop_at (record s { mt = r }) random_idx (get_elem? s.buffer random_idx)

  abbrev pop_last : State S A rnd.Engine → Option A → Result (Option A) × State S A rnd.Engine
  pop_last s none = (ok none, s)
  pop_last s (some x) = (ok (some x), record s { buffer = pop_back s.buffer })

  -- The rest of the call behind the refill; an empty buffer has no back.
  abbrev take_one : Shuffle → Action (State S A rnd.Engine) (Option A)
  take_one p s = elim s.buffer [
    | [] ↦ (ok none, s)
    | _ ∷ _ ↦
        if s.inner_has_instance
        then pop_random_instance_from_buffer p s
        else pop_last s (back s.buffer)
  ]

  pub read_instance_core : Action S (Option A) → Shuffle → Action (State S A rnd.Engine) (Option A)
  unfolding pop_random_instance_from_buffer
  read_instance_core inner p =
      if p.shuffle_window == 1
      then on_inner inner
      else (fill_buffer_from_inner inner p >> take_one p)

  pub reset_core : (S → S) → Shuffle → State S A rnd.Engine → State S A rnd.Engine
  reset_core inner_reset p s = record {
    buffer = [];
    inner_has_instance = true;
    mt = if p.reshuffle_each_epoch then s.mt else rnd.seed p.seed;
    inner = inner_reset s.inner;
  }

  abbrev pub start : Shuffle → S → State S A rnd.Engine
  start p i = record { buffer = []; inner_has_instance = true; mt = rnd.seed p.seed; inner = i }

  pub reset_core-start :
      (p : Shuffle) (inner_reset : S → S) (init : S)
      → p.reshuffle_each_epoch ≡ false
      → ((s : S) → inner_reset s ≡ init)
      → (s : State S A rnd.Engine) → reset_core inner_reset p s ≡ start p init
  unfolding reset_core
  reset_core-start p inner_reset init e h s = rw (e, h s.inner)
