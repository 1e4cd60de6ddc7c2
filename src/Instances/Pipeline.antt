-- ===== src/Instances/Pipeline.antt =====
-- instance_reader.cc: `make_instance_reader` stacks the wrappers that the parameters ask for.
pub mod Laws
use ml_io.Base.{ℕ, Bool, true, false, ◌||◌, Option, none, some, ltb, if◌then◌else◌}
use ml_io.Action.{Result, ok, err}
use ml_io.Instances.Reader.{InstanceReader, of_hooks}
use ml_io.Instances.Ranged
use ml_io.Instances.Ranged.{Range}
use ml_io.Instances.Sharded
use ml_io.Instances.Sharded.{Shard}
use ml_io.Instances.Sampled
use ml_io.Instances.Sampled.{Sample}
use ml_io.Instances.Shuffled
use ml_io.Instances.Shuffled.{Shuffle, Random}

-- The fields of `Data_reader_params` that concern instances, grouped by the reader that uses them.
pub record ReaderParams : Type 0 where
  pub range : Range
  pub shard : Shard
  pub sample : Option Sample
  pub shuffle_instances : Bool
  pub shuffle : Shuffle

abbrev pub is_some {ℓ} : {A : Type ℓ} → Option A → Bool
is_some none = false
is_some (some x) = true

abbrev pub after_check {ℓ} : {A : Type ℓ} → Result (Unit {0}) → A → Result A
after_check (ok _) a = ok a
after_check (err e) a = err e

module _ {A : Type 0} where
  pub add_ranged : Range → InstanceReader A → InstanceReader A
  add_ranged p r =
      if ltb 0 p.num_instances_to_skip || is_some p.num_instances_to_read
      then of_hooks (Ranged.start r.init) (Ranged.read_instance_core r.read_instance p)
          (Ranged.reset_core r.reset)
      else r

  pub add_sharded : Shard → InstanceReader A → Result (InstanceReader A)
  add_sharded p r =
      if ltb 1 p.num_shards
      then after_check (Sharded.check_params p) (
          of_hooks (Sharded.start r.init) (Sharded.read_instance_core r.read_instance p)
            (Sharded.reset_core r.reset))
      else ok r

  pub add_sampled : Option Sample → InstanceReader A → Result (InstanceReader A)
  add_sampled none r = ok r
  add_sampled (some p) r = after_check (Sampled.check_params p) (
      of_hooks (Sampled.start r.init) (Sampled.read_instance_core r.read_instance p)
        (Sampled.reset_core r.reset))

  pub add_shuffled : Random A → Bool → Shuffle → InstanceReader A → InstanceReader A
  add_shuffled rnd wanted p r =
      if wanted
      then of_hooks (Shuffled.start rnd p r.init)
          (Shuffled.read_instance_core rnd r.read_instance p) (Shuffled.reset_core rnd r.reset p)
      else r

  abbrev pub then_reader :
      Result (InstanceReader A)
      → (InstanceReader A → Result (InstanceReader A))
      → Result (InstanceReader A)
  then_reader (ok r) f = f r
  then_reader (err e) f = err e

  pub make_instance_reader : ReaderParams → Random A → InstanceReader A → Result (InstanceReader A)
  unfolding add_ranged add_sharded add_sampled add_shuffled
  make_instance_reader p rnd core =
      then_reader (add_sharded p.shard (add_ranged p.range core)) λ sharded.
        then_reader (add_sampled p.sample sharded)
          λ sampled. ok (add_shuffled rnd p.shuffle_instances p.shuffle sampled)
