-- ===== src/Instances/Batches/Laws.antt =====
-- instance_batch_reader.cc: the batches of a list of instances, and the reader that makes them.
use ml_io.Base.{
  ℕ, zero, suc, ◌+◌, ◌≤◌, ◌<◌, ◌≡◌, refl, ◌∙◌, ◌⊎◌, inl, inr, true, false, Option, none, some, List,
  [], ◌∷◌, ◌++◌, append-nil, append_assoc, length, take, drop, length-take, length-drop,
  take-append-drop, take_all, ◌==◌, if◌then◌else◌, Bool-cases, ==_refl, leb, leb→le, arith,
}
use ml_io.Action.{ok, Action}
use ml_io.Instances.Yields.{Yields, done, more}
use ml_io.Instances.Batches.{
  BatchParams, InstanceBatch, State, collect, is_dropped, size_of, read_instance_batch,
}

module _ {A : Type 0} where
  abbrev pub batch : BatchParams → ℕ → List A → InstanceBatch A
  batch p k b = record { index = k; instances = b; size = size_of p p.last_example_handling b }

  -- What is left when no full batch can be made any more.
  unfoldable pub last_batch : BatchParams → ℕ → List A → List (InstanceBatch A)
  last_batch p k [] = []
  last_batch p k (x ∷ xs) =
      if is_dropped p.last_example_handling then [] else batch p k (x ∷ xs) ∷ []

  -- The batches of a list, from a first index on; `rounds` bounds their number.
  unfoldable pub batches_from : ℕ → BatchParams → ℕ → List A → List (InstanceBatch A)
  unfolding last_batch
  batches_from zero p k xs = []
  batches_from (suc rounds) p k xs =
      let later = batches_from rounds p (k + 1) (drop p.batch_size xs) in
      if leb p.batch_size (length xs)
      then batch p k (take p.batch_size xs) ∷ later
      else last_batch p k xs

  abbrev pub batches_of : BatchParams → List A → List (InstanceBatch A)
  batches_of p xs = batches_from (length xs + 1) p 0 xs

module _ {S A : Type 0} (read : Action S (Option A)) where
  data Collected (n : ℕ) (i : S) (xs : List A) : Type 0 where
    collected :
        (t : S)
        → collect read n i ≡ (ok (take n xs), t)
        → Yields read t (drop n xs)
        → (n ≤ length xs) ⊎ (read t ≡ (ok none, t))
        → Collected n i xs

  Collected-cons :
      (n : ℕ) {i t : S} (x : A) {xs : List A}
      → read i ≡ (ok (some x), t)
      → Collected n t xs
      → Collected (suc n) i (x ∷ xs)
  unfolding collect
  Collected-cons n x e (collected u f y (inl h)) = collected u (rw (e, f)) y (inl (omega arith))
  Collected-cons n x e (collected u f y (inr h)) = collected u (rw (e, f)) y (inr h)

  Yields-Collected : (n : ℕ) {i : S} {xs : List A} → Yields read i xs → Collected n i xs
  unfolding collect
  Yields-Collected zero {i} y = collected i refl y (inl (omega arith))
  Yields-Collected (suc n) (done {t = t} e f) = collected t (rw e) (done f f) (inr f)
  Yields-Collected (suc n) (more {x = x} e y) = Collected-cons n x e (Yields-Collected n y)

  collect-end : (n : ℕ) {t : S} → read t ≡ (ok none, t) → collect read n t ≡ (ok [], t)
  unfolding collect
  collect-end zero f = refl
  collect-end (suc n) f = rw f

  abbrev at : S → ℕ → State S
  at i k = record { reader = i; batch_idx = k }

  read-empty :
      (p : BatchParams) (k : ℕ) (i t : S)
      → collect read p.batch_size i ≡ (ok [], t)
      → read_instance_batch read p (at i k) ≡ (ok none, at t k)
  unfolding read_instance_batch
  read-empty p k i t e = rw e

  read-emitted :
      (p : BatchParams) (k : ℕ) (i t : S) (b : List A)
      → 0 < length b
      → collect read p.batch_size i ≡ (ok b, t)
      → (length b ≡ p.batch_size) ⊎ (is_dropped p.last_example_handling ≡ false)
      → read_instance_batch read p (at i k) ≡ (ok (some (batch p k b)), at t (k + 1))
  unfolding read_instance_batch
  read-emitted p k i t [] h e c = absurd (omega arith)
  read-emitted p k i t (x ∷ b) h e (inl full) = rw (e, full, ==_refl p.batch_size)
  read-emitted p k i t (x ∷ b) h e (inr kept) = elim (Bool-cases (length (x ∷ b) == p.batch_size)) [
    | inl f ↦ rw (e, f)
    | inr f ↦ rw (e, f, kept)
  ]

  read-dropped :
      (p : BatchParams) (k : ℕ) (i t : S) (b : List A)
      → length b < p.batch_size
      → collect read p.batch_size i ≡ (ok b, t)
      → is_dropped p.last_example_handling ≡ true
      → read_instance_batch read p (at i k) ≡ (ok none, at t k)
  unfolding read_instance_batch
  read-dropped p k i t [] h e d = rw e
  read-dropped p k i t (x ∷ b) h e d =
      let f : (length (x ∷ b) == p.batch_size) ≡ false = ground arith in rw (e, f, d)

  Batches : BatchParams → S → ℕ → List (InstanceBatch A) → Type 0
  Batches p i k = Yields (read_instance_batch read p) (at i k)

  at_end :
      (p : BatchParams) (k : ℕ) {t : S}
      → read t ≡ (ok none, t)
      → read_instance_batch read p (at t k) ≡ (ok none, at t k)
  at_end p k f = read-empty p k _ _ (collect-end p.batch_size f)

  -- The call that meets the end of the reader within a batch.
  last-Yields :
      (p : BatchParams) (k : ℕ) (i t : S) (xs : List A)
      → length xs < p.batch_size
      → collect read p.batch_size i ≡ (ok xs, t)
      → read t ≡ (ok none, t)
      → Batches p i k (last_batch p k xs)
  unfolding last_batch Batches
  last-Yields p k i t [] h e f = done (read-empty p k i t e) (at_end p k f)
  last-Yields p k i t (x ∷ xs) h e f = elim (Bool-cases (is_dropped p.last_example_handling)) [
    | inl d ↦ rw d (done (read-dropped p k i t (x ∷ xs) h e d) (at_end p k f))
    | inr d ↦ rw d (
        more (read-emitted p k i t (x ∷ xs) (omega arith) e (inr d))
          (done (at_end p (k + 1) f) (at_end p (k + 1) f)))
  ]

  by_rounds :
      (n : ℕ) (p : BatchParams) (k : ℕ) (i : S) (xs : List A)
      → 0 < p.batch_size
      → length xs < suc n
      → Collected p.batch_size i xs
      → ((t : S)
          → length (drop p.batch_size xs) < n
          → Yields read t (drop p.batch_size xs)
          → Batches p t (k + 1) (batches_from n p (k + 1) (drop p.batch_size xs)))
      → Batches p i k (batches_from (suc n) p k xs)
  unfolding batches_from Batches
  by_rounds n p k i xs pos h (collected t e y c) ih =
      elim (Bool-cases (leb p.batch_size (length xs))) [
        | inl full ↦
            let le = leb→le p.batch_size (length xs) full in
            let size : length (take p.batch_size xs) ≡ p.batch_size =
              omega (arith, length-take p.batch_size xs) in
            rw full (
              more (read-emitted p k i t (take p.batch_size xs) (omega arith) e (inl size))
                (ih t (omega (arith, length-drop p.batch_size xs)) y))
        | inr part ↦
            let short : length xs < p.batch_size = ground arith in
            rw part (
              last-Yields p k i t xs short (e ∙ rw (take_all p.batch_size xs (omega arith)))
                (stops c short))
      ]
    where
      stops :
          (p.batch_size ≤ length xs) ⊎ (read t ≡ (ok none, t))
          → length xs < p.batch_size
          → read t ≡ (ok none, t)
      stops (inl g) short = absurd (omega arith)
      stops (inr f) short = f

  from-Yields :
      (n : ℕ) (p : BatchParams) (k : ℕ) (i : S) (xs : List A)
      → 0 < p.batch_size
      → length xs < n
      → Yields read i xs
      → Batches p i k (batches_from n p k xs)
  from-Yields zero p k i xs pos h y = absurd (omega arith)
  from-Yields (suc n) p k i xs pos h y =
      by_rounds n p k i xs pos h (Yields-Collected p.batch_size y)
        (λ t l z. from-Yields n p (k + 1) t (drop p.batch_size xs) pos l z)

  -- The batch reader delivers the batches of what the instance reader does.
  pub read_instance_batch-Yields :
      (p : BatchParams) {i : S} {xs : List A}
      → 0 < p.batch_size
      → Yields read i xs
      → Yields (read_instance_batch read p) (record { reader = i; batch_idx = 0 }) (batches_of p xs)
  unfolding Batches
  read_instance_batch-Yields p {i} {xs} pos y =
      from-Yields (length xs + 1) p 0 i xs pos (omega arith) y

abbrev pub instances_of : {A : Type 0} → List (InstanceBatch A) → List A
instances_of [] = []
instances_of (b ∷ bs) = b.instances ++ instances_of bs

module _ {A : Type 0} where
  last_batch-kept :
      (p : BatchParams) (k : ℕ) (xs : List A)
      → is_dropped p.last_example_handling ≡ false
      → instances_of (last_batch p k xs) ≡ xs
  unfolding last_batch
  last_batch-kept p k [] d = refl
  last_batch-kept p k (x ∷ xs) d = rw (d, append-nil)

  from-kept :
      (n : ℕ) (p : BatchParams) (k : ℕ) (xs : List A)
      → is_dropped p.last_example_handling ≡ false
      → 0 < p.batch_size
      → length xs < n
      → instances_of (batches_from n p k xs) ≡ xs
  unfolding batches_from
  from-kept zero p k xs d pos h = absurd (omega arith)
  from-kept (suc n) p k xs d pos h = elim (Bool-cases (leb p.batch_size (length xs))) [
    | inl full ↦
        let le = leb→le p.batch_size (length xs) full in
        rw
          (
            full,
            from-kept n p (k + 1) (drop p.batch_size xs) d pos
                (omega (arith, length-drop p.batch_size xs)),
          )
          (take-append-drop p.batch_size xs)
    | inr part ↦ rw part (last_batch-kept p k xs d)
  ]

  -- Unless the last batch is dropped the batches hold every instance once, in order.
  pub instances_of-batches_of :
      (p : BatchParams) (xs : List A)
      → is_dropped p.last_example_handling ≡ false
      → 0 < p.batch_size
      → instances_of (batches_of p xs) ≡ xs
  instances_of-batches_of p xs d pos = from-kept (length xs + 1) p 0 xs d pos (omega arith)

  abbrev pub AllFull : BatchParams → List (InstanceBatch A) → Type 0
  AllFull p [] = Unit {0}
  AllFull p (b ∷ bs) = (length b.instances ≡ p.batch_size) × (b.size ≡ p.batch_size) × AllFull p bs

  size_of_full :
      (p : BatchParams) (b : List A)
      → length b ≡ p.batch_size
      → size_of p p.last_example_handling b ≡ p.batch_size
  unfolding size_of
  size_of_full p b h = ground arith

  last_batch-dropped :
      (p : BatchParams) (k : ℕ) (xs : List A)
      → is_dropped p.last_example_handling ≡ true
      → last_batch p k xs ≡ []
  unfolding last_batch
  last_batch-dropped p k [] d = refl
  last_batch-dropped p k (x ∷ xs) d = rw d

  abbrev FullPrefix : BatchParams → List (InstanceBatch A) → List A → Type 0
  FullPrefix p bs xs =
      AllFull p bs × ((ys : List A) × (instances_of bs ++ ys ≡ xs) × (length ys < p.batch_size))

  from-full :
      (n : ℕ) (p : BatchParams) (k : ℕ) (xs : List A)
      → is_dropped p.last_example_handling ≡ true
      → 0 < p.batch_size
      → length xs < n
      → FullPrefix p (batches_from n p k xs) xs
  unfolding batches_from
  from-full zero p k xs d pos h = absurd (omega arith)
  from-full (suc n) p k xs d pos h = elim (Bool-cases (leb p.batch_size (length xs))) [
    | inl full ↦
        let le = leb→le p.batch_size (length xs) full in
        let size : length (take p.batch_size xs) ≡ p.batch_size =
          omega (arith, length-take p.batch_size xs) in
        let (f, left) =
          from-full n p (k + 1) (drop p.batch_size xs) d pos
            (omega (arith, length-drop p.batch_size xs)) in
        let (ys, e, l) = left in
        rw full (
          (size, size_of_full p (take p.batch_size xs) size, f),
          (
            ys,
            append_assoc (take p.batch_size xs) _ ys ∙ rw e (take-append-drop p.batch_size xs),
            l,
          ),
        )
    | inr part ↦ rw (part, last_batch-dropped p k xs d) (tt, (xs, refl, ground arith))
  ]

  -- Where the last batch is dropped every batch is full, and fewer instances than one batch holds
  -- are lost, at the end.
  pub batches_of-dropped :
      (p : BatchParams) (xs : List A)
      → is_dropped p.last_example_handling ≡ true
      → 0 < p.batch_size
      → AllFull p (batches_of p xs)
        × ((ys : List A) × (instances_of (batches_of p xs) ++ ys ≡ xs) × (length ys < p.batch_size))
  batches_of-dropped p xs d pos = from-full (length xs + 1) p 0 xs d pos (omega arith)
