-- ===== src/Instances/Ranged.antt =====
-- ranged_instance_reader.cc: skips the first instances, and stops after a number of them.
use ml_io.Base.{
  ℕ, zero, suc, ◌+◌, Bool, true, false, Option, none, some, List, [], ◌≡◌, refl, take, drop,
  drop_all, arith, ◌==◌, if◌then◌else◌,
}
use ml_io.Action.{Result, ok, Action, ◌>>=◌, ◌>>◌, pure, get, modify}
use ml_io.Instances.Yields.{
  Yields, done, more, Yields-step, skip_instances, Yields-Skipped, skipped, ended, Skipped,
}

-- The fields of `Data_reader_params` that the reader uses.
pub record Range : Type 0 where
  pub num_instances_to_skip : ℕ
  pub num_instances_to_read : Option ℕ

pub record State (S : Type 0) : Type 0 where
  pub first_read : Bool
  pub num_instances_read : ℕ
  pub inner : S

module _ {S : Type 0} where
  abbrev put_inner {ℓ} : {B : Type ℓ} → State S → Result B × S → Result B × State S
  put_inner s (r, i) = (r, record s { inner = i })

  abbrev on_inner {ℓ} : {B : Type ℓ} → Action S B → Action (State S) B
  on_inner m s = put_inner s (m s.inner)

  pub should_stop_reading : Range → State S → Bool
  should_stop_reading p s = elim p.num_instances_to_read [
    | none ↦ false
    | some limit ↦ s.num_instances_read == limit
  ]

-- The block under `if (first_read_)`; `false` where it returns early.
abbrev skip_first : {S A : Type 0} → Action S (Option A) → Range → Action (State S) Bool
skip_first inner p s =
    if s.first_read
    then on_inner (skip_instances inner p.num_instances_to_skip) (record s { first_read = false })
    else (ok true, s)

abbrev count_read : {S A : Type 0} → Option A → Action (State S) (Option A)
count_read none = pure none
count_read (some x) = do
  modify λ s. record s { num_instances_read = s.num_instances_read + 1 }
  pure (some x)

pub read_instance_core : {S A : Type 0} → Action S (Option A) → Range → Action (State S) (Option A)
unfolding should_stop_reading
read_instance_core inner p = do
  go_on ← skip_first inner p
  s ← get
  if go_on
      then (if should_stop_reading p s then pure none else (on_inner inner >>= count_read))
      else pure none

pub reset_core : {S : Type 0} → (S → S) → State S → State S
reset_core inner_reset s = record {
  first_read = true;
  num_instances_read = 0;
  inner = inner_reset s.inner;
}

abbrev pub start : {S : Type 0} → S → State S
start i = record { first_read = true; num_instances_read = 0; inner = i }

-- The instances that remain: the first are dropped, and the limit, where there is one, cuts the rest.
abbrev pub limited {ℓ} : {A : Type ℓ} → Option ℕ → List A → List A
limited none xs = xs
limited (some n) xs = take n xs

abbrev pub in_range {ℓ} : {A : Type ℓ} → Range → List A → List A
in_range p xs = limited p.num_instances_to_read (drop p.num_instances_to_skip xs)

module _ {S A : Type 0} (inner : Action S (Option A)) where
  abbrev running : ℕ → S → State S
  running k i = record { first_read = false; num_instances_read = k; inner = i }

  running-unlimited :
      (n k : ℕ) {i : S} {xs : List A}
      → Yields inner i xs
      → Yields
          (read_instance_core inner
            (record { num_instances_to_skip = n; num_instances_to_read = none }))
          (running k i)
          xs
  unfolding read_instance_core
  running-unlimited n k (done {t = t} e f) = done {t = running k t} (ground arith) (ground arith)
  running-unlimited n k (more {t = t} e y) =
      more {t = running (k + 1) t} (ground arith) (running-unlimited n (k + 1) y)

  running-limited :
      (n limit left k : ℕ) {i : S} {xs : List A}
      → k + left ≡ limit
      → Yields inner i xs
      → Yields
          (read_instance_core inner
            (record { num_instances_to_skip = n; num_instances_to_read = some limit }))
          (running k i)
          (take left xs)
  unfolding read_instance_core
  running-limited n limit zero k {i} h y = done {t = running k i} (ground arith) (ground arith)
  running-limited n limit (suc left) k h (done {t = t} e f) =
      done {t = running k t} (ground arith) (ground arith)
  running-limited n limit (suc left) k h (more {t = t} e y) =
      more {t = running (k + 1) t} (ground arith)
        (running-limited n limit left (k + 1) (omega arith) y)

  running-Yields :
      (n : ℕ) (l : Option ℕ) {i : S} {xs : List A}
      → Yields inner i xs
      → Yields
          (read_instance_core inner
            (record { num_instances_to_skip = n; num_instances_to_read = l }))
          (running 0 i)
          (limited l xs)
  running-Yields n none y = running-unlimited n 0 y
  running-Yields n (some m) y = running-limited n m m 0 (omega arith) y

  limited-nil : (l : Option ℕ) → limited {A = A} l [] ≡ []
  limited-nil none = refl
  limited-nil (some zero) = refl
  limited-nil (some (suc n)) = refl

  -- Skipping may meet the end of the inner reader; then the reader is at its end for good.
  start-Skipped :
      (p : Range) {i : S} {xs : List A}
      → Skipped inner p.num_instances_to_skip i xs
      → Yields (read_instance_core inner p) (start i) (in_range p xs)
  unfolding read_instance_core
  start-Skipped p (skipped t e h y) =
      Yields-step _ (ground arith)
        (running-Yields p.num_instances_to_skip p.num_instances_to_read y)
  start-Skipped p {xs = xs} (ended t e h f) =
      rw (drop_all p.num_instances_to_skip xs (omega arith), limited-nil)
        (done {t = running 0 t} (ground arith) (ground arith))

  -- The reader delivers what the inner one does, without the first `num_instances_to_skip` and cut
  -- after `num_instances_to_read`.
  pub in_range-Yields :
      (p : Range) {i : S} {xs : List A}
      → Yields inner i xs
      → Yields (read_instance_core inner p) (start i) (in_range p xs)
  in_range-Yields p y = start-Skipped p (Yields-Skipped inner p.num_instances_to_skip y)

pub reset_core-start :
    {S : Type 0} (inner_reset : S → S) (init : S)
    → ((s : S) → inner_reset s ≡ init)
    → (s : State S) → reset_core inner_reset s ≡ start init
unfolding reset_core
reset_core-start inner_reset init h s =
    λ i. record { first_read = true; num_instances_read = 0; inner = h s.inner i }
