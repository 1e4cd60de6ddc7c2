-- ===== src/Instances/Sharded.antt =====
-- sharded_instance_reader.cc: delivers one shard, every `num_shards`-th instance.
use ml_io.Base.{
  ◌⊎◌, inl, inr, length-drop, get_elem?, ◌*◌, ℕ, zero, suc, ◌+◌, ◌-◌, ◌≤◌, ◌<◌, Bool, true, false,
  Option, none, List, [], ◌∷◌, ◌≡◌, refl, length, drop, drop_all, arith, leb, if◌then◌else◌,
}
use ml_io.Action.{Result, ok, err, invalid_argument, Action, ◌>>=◌, pure}
use ml_io.Instances.Yields.{
  Yields, done, more, skip_instances, Yields-Skipped, skipped, ended, Skipped,
}

pub record Shard : Type 0 where
  pub shard_index : ℕ
  pub num_shards : ℕ

pub record State (S : Type 0) : Type 0 where
  pub first_read : Bool
  pub inner : S

-- The constructor's check.
pub check_params : Shard → Result (Unit {0})
check_params p = if leb p.num_shards p.shard_index then err invalid_argument else ok tt

module _ {S : Type 0} where
  abbrev put_inner {ℓ} : {B : Type ℓ} → Result B × S → Result B × State S
  put_inner (r, i) = (r, record { first_read = false; inner = i })

  -- An inner call; `first_read_` is false whenever one is made.
  abbrev on_inner {ℓ} : {B : Type ℓ} → Action S B → Action (State S) B
  on_inner m s = put_inner (m s.inner)

pub read_instance_core : {S A : Type 0} → Action S (Option A) → Shard → Action (State S) (Option A)
read_instance_core inner p s =
    let num_instances_to_skip = if s.first_read then p.shard_index else p.num_shards - 1 in
    ◌>>=◌ (on_inner (skip_instances inner num_instances_to_skip))
      (λ go_on. if go_on then on_inner inner else pure none) s

pub reset_core : {S : Type 0} → (S → S) → State S → State S
reset_core inner_reset s = record { first_read = true; inner = inner_reset s.inner }

abbrev pub start : {S : Type 0} → S → State S
start i = record { first_read = true; inner = i }

-- Every item whose position is `skip` more than a multiple of `step`: `skip` items are passed over,
-- one is taken, and then `step - 1` are passed over before each further one.
unfoldable pub every {ℓ} : {A : Type ℓ} → ℕ → ℕ → List A → List A
every step skip [] = []
every step zero (x ∷ xs) = x ∷ every step (step - 1) xs
every step (suc skip) (x ∷ xs) = every step skip xs

abbrev pub shard_of {ℓ} : {A : Type ℓ} → Shard → List A → List A
shard_of p = every p.num_shards p.shard_index

module _ {S A : Type 0} (inner : Action S (Option A)) (p : Shard) where
  every-drop : (step skip : ℕ) (xs : List A) → every step skip xs ≡ every step 0 (drop skip xs)
  unfolding every
  every-drop step zero [] = refl
  every-drop step (suc skip) [] = refl
  every-drop step zero (x ∷ xs) = refl
  every-drop step (suc skip) (x ∷ xs) = every-drop step skip xs

  abbrev at : Bool → S → State S
  at b i = record { first_read = b; inner = i }

  abbrev to_skip : Bool → ℕ
  to_skip b = if b then p.shard_index else p.num_shards - 1

  skip-end :
      (n : ℕ) {t : S}
      → inner t ≡ (ok none, t)
      → (skip_instances inner n t ≡ (ok true, t)) ⊎ (skip_instances inner n t ≡ (ok false, t))
  unfolding skip_instances
  skip-end zero f = inl refl
  skip-end (suc n) f = inr (rw f)

  -- At the end of the inner reader every further call returns `none`.
  core-end :
      {t : S}
      → inner t ≡ (ok none, t)
      → read_instance_core inner p (at false t) ≡ (ok none, at false t)
  unfolding read_instance_core
  core-end f = ground (arith, skip-end (p.num_shards - 1) f)

  -- What a call does once its loop has passed over the instances of the other shards.
  taken :
      (fuel : ℕ) (b : Bool) {i t : S} {ys : List A}
      → skip_instances inner (to_skip b) i ≡ (ok true, t)
      → length ys < suc fuel
      → ((j : S) (zs : List A)
          → length zs < fuel
          → Yields inner j zs
          → Yields
              (read_instance_core inner p)
              (at false j)
              (every p.num_shards (p.num_shards - 1) zs))
      → Yields inner t ys
      → Yields (read_instance_core inner p) (at b i) (every p.num_shards 0 ys)
  unfolding read_instance_core every
  taken fuel b e h ih (done {t = u} g f) = done {t = at false u} (ground arith) (core-end f)
  taken fuel b e h ih (more {t = u} {xs = zs} g y) =
      more {t = at false u} (ground arith) (ih u zs (omega arith) y)

  by_skip :
      (fuel : ℕ) (b : Bool) {i : S} {xs : List A}
      → length xs < suc fuel
      → ((j : S) (zs : List A)
          → length zs < fuel
          → Yields inner j zs
          → Yields
              (read_instance_core inner p)
              (at false j)
              (every p.num_shards (p.num_shards - 1) zs))
      → Skipped inner (to_skip b) i xs
      → Yields (read_instance_core inner p) (at b i) (every p.num_shards (to_skip b) xs)
  unfolding read_instance_core every
  by_skip fuel b {xs = xs} h ih (ended t e l f) =
      rw (every-drop p.num_shards (to_skip b) xs, drop_all (to_skip b) xs (omega arith))
        (done {t = at false t} (ground arith) (core-end f))
  by_skip fuel b {xs = xs} h ih (skipped t e l y) =
      rw (every-drop p.num_shards (to_skip b) xs)
        (taken fuel b e (omega (arith, length-drop (to_skip b) xs)) ih y)

  at-Yields :
      (fuel : ℕ) (b : Bool) (i : S) (xs : List A)
      → length xs < fuel
      → Yields inner i xs
      → Yields (read_instance_core inner p) (at b i) (every p.num_shards (to_skip b) xs)
  at-Yields zero b i xs h y = absurd (omega arith)
  at-Yields (suc fuel) b i xs h y =
      by_skip fuel b h (λ j zs l z. at-Yields fuel false j zs l z)
        (Yields-Skipped inner (to_skip b) y)

  -- The reader delivers one shard of what the inner one does.
  pub shard_of-Yields :
      {i : S} {xs : List A}
      → Yields inner i xs
      → Yields (read_instance_core inner p) (start i) (shard_of p xs)
  shard_of-Yields {i} {xs} y = at-Yields (length xs + 1) true i xs (omega arith) y

-- The shard by positions: its item `j` is the item `shard_index + j * num_shards` of the dataset.
pub get_elem?-every {ℓ} :
    {A : Type ℓ} (n skip : ℕ) (xs : List A) (j : ℕ)
    → 0 < n
    → get_elem? (every n skip xs) j ≡ get_elem? xs (skip + j * n)
unfolding every
get_elem?-every n zero [] j h = refl
get_elem?-every n (suc skip) [] j h = refl
get_elem?-every n zero (x ∷ xs) zero h = rw (zero_times n)
  where
    zero_times : (n : ℕ) → 0 + 0 * n ≡ 0
    zero_times n = omega arith
get_elem?-every n zero (x ∷ xs) (suc j) h =
    let e : 0 + suc j * n ≡ suc (n - 1 + j * n) = grind arith in
    rw e (get_elem?-every n (n - 1) xs j h)
get_elem?-every n (suc skip) (x ∷ xs) j h =
    let e : suc skip + j * n ≡ suc (skip + j * n) = omega arith in
    rw e (get_elem?-every n skip xs j h)

-- Where there is at least one shard, the reader delivers one shard of what the inner one does: its
-- item `j` is the inner reader's item `shard_index + j * num_shards`, and there is none where that
-- is past the end.
pub shard-Yields :
    {S A : Type 0} (inner : Action S (Option A)) (p : Shard) {i : S} {xs : List A}
    → 0 < p.num_shards
    → Yields inner i xs
    → (ys : List A) × Yields (read_instance_core inner p) (start i) ys
      × ((j : ℕ) → get_elem? ys j ≡ get_elem? xs (p.shard_index + j * p.num_shards))
shard-Yields inner p {xs = xs} h y = (
  shard_of p xs,
  shard_of-Yields inner p y,
  λ j. get_elem?-every p.num_shards p.shard_index xs j h,
)

pub check_params-ok : (p : Shard) → p.shard_index < p.num_shards → check_params p ≡ ok tt
unfolding check_params
check_params-ok p h = ground arith

pub check_params-err :
    (p : Shard) → p.num_shards ≤ p.shard_index → check_params p ≡ err invalid_argument
unfolding check_params
check_params-err p h = ground arith

pub reset_core-start :
    {S : Type 0} (inner_reset : S → S) (init : S)
    → ((s : S) → inner_reset s ≡ init)
    → (s : State S) → reset_core inner_reset s ≡ start init
unfolding reset_core
reset_core-start inner_reset init h s = λ i. record { first_read = true; inner = h s.inner i }
