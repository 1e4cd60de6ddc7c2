-- ===== src/Instances/Pipeline/Laws.antt =====
-- instance_reader.cc: what the stack of readers delivers, and its reset.
use mathlib.Core.List.Perm
use ml_io.Base.{
  ℕ, zero, suc, ◌||◌, ◌≤◌, ◌<◌, ◌^◌, ◌≡◌, refl, ◌∙◌, Bool, true, false, Option, none, some, List,
  Perm, length, Bool-cases, inl, inr, ltb, if◌then◌else◌, arith, ltb→lt,
}
use ml_io.Action.{ok}
use ml_io.Instances.Reader.{
  InstanceReader, of_hooks, Delivers, IsRestartable, Delivers-of_hooks, IsRestartable-of_hooks,
}
use ml_io.Instances.Ranged
use ml_io.Instances.Ranged.{Range, in_range}
use ml_io.Instances.Sharded
use ml_io.Instances.Sharded.{Shard, shard_of}
use ml_io.Instances.Sampled
use ml_io.Instances.Sampled.Laws.{sample_of}
use ml_io.Instances.Sampled.Laws as SampledLaws
use ml_io.Instances.Sampled.{Sample, num_instances_to_read}
use ml_io.Instances.Shuffled
use ml_io.Instances.Shuffled.Laws as ShuffledLaws
use ml_io.Instances.Shuffled.{Shuffle, Random, size_max, dist_max}
use ml_io.Instances.Pipeline.{
  ReaderParams, is_some, add_ranged, add_sharded, add_sampled, add_shuffled, make_instance_reader,
}

abbrev pub RatioWithin : Option Sample → Type 0
RatioWithin none = Unit {0}
RatioWithin (some p) = p.ratio_within ≡ true

-- What the constructors of the sharded and the sampled reader check.
pub record PassesChecks (p : ReaderParams) : Type 0 where
  pub shard_within : 1 < p.shard.num_shards → p.shard.shard_index < p.shard.num_shards
  pub ratio_valid : RatioWithin p.sample

-- A full round of the sampler keeps at least one instance, which no constructor checks.
abbrev pub KeepsSome : Option Sample → Type 0
KeepsSome none = Unit {0}
KeepsSome (some p) = 0 < p.num_keep num_instances_to_read

-- The window is a `std::size_t`.
pub record IsValid (p : ReaderParams) : Type 0 where
  pub passes : PassesChecks p
  pub keeps : KeepsSome p.sample
  pub window_bounded : p.shuffle.shuffle_window < 2 ^ 64

-- What is documented of the library's distributions and of `std::shuffle`.
pub record RandomLaws {A : Type 0} (rnd : Random A) : Type 0 where
  pub draws : (m : ℕ) (r : rnd.Engine) → (rnd.draw m r).0 ≤ m
  pub shuffles : (c : List A) (r : rnd.Engine) → Perm (rnd.shuffle c r).0 c

module _ {A : Type 0} where
  abbrev sharded : Shard → List A → List A
  sharded p xs = if ltb 1 p.num_shards then shard_of p xs else xs

  abbrev sampled : Option Sample → List A → List A
  sampled none xs = xs
  sampled (some p) xs = sample_of p xs

  -- The instances that the parameters select, in the order of the dataset.
  abbrev pub selected : ReaderParams → List A → List A
  selected p xs = sampled p.sample (sharded p.shard (in_range p.range xs))

  choose :
      (P : InstanceReader A → Type 0) (b : Bool) (x y : InstanceReader A)
      → (b ≡ true → P x)
      → (b ≡ false → P y)
      → P (if b then x else y)
  choose P true x y h k = h refl
  choose P false x y h k = k refl

  in_range_all :
      (n : ℕ) (l : Option ℕ) (xs : List A)
      → (ltb 0 n || is_some l) ≡ false
      → in_range (record { num_instances_to_skip = n; num_instances_to_read = l }) xs ≡ xs
  in_range_all zero none xs e = refl
  in_range_all zero (some m) xs e = ground arith
  in_range_all (suc n) l xs e = ground arith

  add_ranged-Delivers :
      (p : Range) (r : InstanceReader A) (xs : List A)
      → Delivers r xs
      → Delivers (add_ranged p r) (in_range p xs)
  unfolding add_ranged
  add_ranged-Delivers p r xs d =
      choose (λ q. Delivers q (in_range p xs)) _ _ r
        (λ _.
          Delivers-of_hooks (Ranged.start r.init) _ (Ranged.reset_core r.reset)
            (Ranged.in_range-Yields r.read_instance p d))
        (λ e. rw (in_range_all p.num_instances_to_skip p.num_instances_to_read xs e) d)

  sharded_reader : Shard → InstanceReader A → InstanceReader A
  sharded_reader p r =
      if ltb 1 p.num_shards
      then of_hooks (Sharded.start r.init) (Sharded.read_instance_core r.read_instance p)
          (Sharded.reset_core r.reset)
      else r

  add_sharded-ok :
      (p : Shard) (r : InstanceReader A)
      → (1 < p.num_shards → p.shard_index < p.num_shards)
      → add_sharded p r ≡ ok (sharded_reader p r)
  unfolding add_sharded sharded_reader
  add_sharded-ok p r h = elim (Bool-cases (ltb 1 p.num_shards)) [
    | inl e ↦ rw (e, Sharded.check_params-ok p (h (ltb→lt 1 p.num_shards e)))
    | inr e ↦ rw e
  ]

  sharded_reader-Delivers :
      (p : Shard) (r : InstanceReader A) (xs : List A)
      → Delivers r xs
      → Delivers (sharded_reader p r) (sharded p xs)
  unfolding sharded_reader
  sharded_reader-Delivers p r xs d =
      choose (λ q. Delivers q (sharded p xs)) (ltb 1 p.num_shards)
        (of_hooks (Sharded.start r.init) (Sharded.read_instance_core r.read_instance p)
          (Sharded.reset_core r.reset))
        r
        (λ e. rw e (
          Delivers-of_hooks (Sharded.start r.init) _ (Sharded.reset_core r.reset)
            (Sharded.shard_of-Yields r.read_instance p d)))
        (λ e. rw e d)

  sampled_reader : Option Sample → InstanceReader A → InstanceReader A
  sampled_reader none r = r
  sampled_reader (some p) r =
      of_hooks (Sampled.start r.init) (Sampled.read_instance_core r.read_instance p)
        (Sampled.reset_core r.reset)

  add_sampled-ok :
      (p : Option Sample) (r : InstanceReader A)
      → RatioWithin p
      → add_sampled p r ≡ ok (sampled_reader p r)
  unfolding add_sampled sampled_reader
  add_sampled-ok none r h = refl
  add_sampled-ok (some p) r h = rw (Sampled.check_params-ok p h)

  sampled_reader-Delivers :
      (p : Option Sample) (r : InstanceReader A) (xs : List A)
      → KeepsSome p
      → Delivers r xs
      → Delivers (sampled_reader p r) (sampled p xs)
  unfolding sampled_reader
  sampled_reader-Delivers none r xs h d = d
  sampled_reader-Delivers (some p) r xs h d =
      Delivers-of_hooks (Sampled.start r.init) _ (Sampled.reset_core r.reset)
        (SampledLaws.sample_of-Yields r.read_instance p h d)

  -- The stack without the shuffling reader on its top.
  ordered_reader : ReaderParams → InstanceReader A → InstanceReader A
  unfolding sampled_reader sharded_reader
  ordered_reader p core = sampled_reader p.sample (sharded_reader p.shard (add_ranged p.range core))

  ordered_reader-Delivers :
      (p : ReaderParams) (core : InstanceReader A) (xs : List A)
      → IsValid p
      → Delivers core xs
      → Delivers (ordered_reader p core) (selected p xs)
  unfolding ordered_reader
  ordered_reader-Delivers p core xs v d =
      sampled_reader-Delivers p.sample _ _ v.keeps
        (sharded_reader-Delivers p.shard _ _ (add_ranged-Delivers p.range core xs d))

  make_instance_reader-ok :
      (p : ReaderParams) (rnd : Random A) (core : InstanceReader A)
      → PassesChecks p
      → make_instance_reader p rnd core
        ≡ ok (add_shuffled rnd p.shuffle_instances p.shuffle (ordered_reader p core))
  unfolding make_instance_reader ordered_reader
  make_instance_reader-ok p rnd core v = rw (
    add_sharded-ok p.shard (add_ranged p.range core) v.shard_within,
    add_sampled-ok p.sample (sharded_reader p.shard (add_ranged p.range core)) v.ratio_valid,
  )

  add_ranged-IsRestartable :
      (p : Range) (r : InstanceReader A) → IsRestartable r → IsRestartable (add_ranged p r)
  unfolding add_ranged
  add_ranged-IsRestartable p r h =
      choose IsRestartable _ _ r
        (λ _.
          IsRestartable-of_hooks _ (Ranged.read_instance_core r.read_instance p) _
            (Ranged.reset_core-start r.reset r.init h))
        (λ _. h)

  sharded_reader-IsRestartable :
      (p : Shard) (r : InstanceReader A) → IsRestartable r → IsRestartable (sharded_reader p r)
  unfolding sharded_reader
  sharded_reader-IsRestartable p r h =
      choose IsRestartable _ _ r
        (λ _.
          IsRestartable-of_hooks _ (Sharded.read_instance_core r.read_instance p) _
            (Sharded.reset_core-start r.reset r.init h))
        (λ _. h)

  sampled_reader-IsRestartable :
      (p : Option Sample) (r : InstanceReader A)
      → IsRestartable r
      → IsRestartable (sampled_reader p r)
  unfolding sampled_reader
  sampled_reader-IsRestartable none r h = h
  sampled_reader-IsRestartable (some p) r h =
      IsRestartable-of_hooks _ (Sampled.read_instance_core r.read_instance p) _
        (Sampled.reset_core-start r.reset r.init h)

  add_shuffled-IsRestartable :
      (rnd : Random A) (wanted : Bool) (p : Shuffle) (r : InstanceReader A)
      → (wanted ≡ true → p.reshuffle_each_epoch ≡ false)
      → IsRestartable r
      → IsRestartable (add_shuffled rnd wanted p r)
  unfolding add_shuffled
  add_shuffled-IsRestartable rnd wanted p r e h =
      choose IsRestartable wanted _ r
        (λ w.
          IsRestartable-of_hooks _ (Shuffled.read_instance_core rnd r.read_instance p) _
            (Shuffled.reset_core-start rnd p r.reset r.init (e w) h))
        (λ _. h)

  -- Where the parameters pass the checks of the constructors, a reset of the core reader brings it back to its start,
  -- and shuffled instances are not to be shuffled anew, the stack is made and its reset brings it
  -- back to its start, whatever was read or peeked before.
  pub make_instance_reader-IsRestartable :
      (p : ReaderParams) (rnd : Random A) (core : InstanceReader A)
      → PassesChecks p
      → (p.shuffle_instances ≡ true → p.shuffle.reshuffle_each_epoch ≡ false)
      → IsRestartable core
      → (r : InstanceReader A) × (make_instance_reader p rnd core ≡ ok r) × IsRestartable r
  unfolding ordered_reader
  make_instance_reader-IsRestartable p rnd core v e h = (
    add_shuffled rnd p.shuffle_instances p.shuffle (ordered_reader p core),
    make_instance_reader-ok p rnd core v,
    add_shuffled-IsRestartable rnd p.shuffle_instances p.shuffle (ordered_reader p core) e (
        sampled_reader-IsRestartable p.sample _
          (sharded_reader-IsRestartable p.shard _ (add_ranged-IsRestartable p.range core h))),
  )

  -- Where the parameters pass the checks of the constructors, a full round of the sampler, if there
  -- is one, keeps at least one instance, the shuffle window is below 2 ^ 64, the random library keeps
  -- its laws, the core reader delivers a list, and fewer instances than the largest size are selected
  -- of it, the stack is made and delivers the selected instances in a permuted order, and in the
  -- list's own order without shuffling.
  pub make_instance_reader-Delivers :
      (p : ReaderParams) (rnd : Random A) (core : InstanceReader A) (xs : List A)
      → IsValid p
      → RandomLaws rnd
      → length (selected p xs) < size_max
      → Delivers core xs
      → (r : InstanceReader A) × (ys : List A) × (make_instance_reader p rnd core ≡ ok r)
        × Delivers r ys
        × Perm ys (selected p xs)
        × (p.shuffle_instances ≡ false → ys ≡ selected p xs)
  unfolding add_shuffled
  make_instance_reader-Delivers p rnd core xs v laws l d =
      let ordered = ordered_reader-Delivers p core xs v d in
      elim (Bool-cases p.shuffle_instances) [
        | inl e ↦
            let (ys, y, q) =
              ShuffledLaws.shuffled-Yields rnd _ p.shuffle (laws.draws (dist_max p.shuffle))
                laws.shuffles v.window_bounded l ordered in
            (
              of_hooks (Shuffled.start rnd p.shuffle (ordered_reader p core).init) _
                  (Shuffled.reset_core rnd (ordered_reader p core).reset p.shuffle),
              ys,
              make_instance_reader-ok p rnd core v.passes ∙ rw e,
              Delivers-of_hooks _ _
                  (Shuffled.reset_core rnd (ordered_reader p core).reset p.shuffle) y,
              q,
              λ f. cc,
            )
        | inr e ↦ (
          ordered_reader p core,
          selected p xs,
          make_instance_reader-ok p rnd core v.passes ∙ rw e,
          ordered,
          Perm.refl _,
          λ f. refl,
        )
      ]
