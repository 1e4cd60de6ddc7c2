-- ===== src/Instances/Batches/Contents.antt =====
-- What the batches hold, by the treatment of the last one.
use ml_io.Base.{◌<◌, ◌≡◌, true, false, Option, List, ◌++◌, length}
use ml_io.Action.{Action}
use ml_io.Instances.Yields.{Yields}
use ml_io.Instances.Batches.{BatchParams, InstanceBatch, is_dropped, read_instance_batch}
use ml_io.Instances.Batches.Laws.{
  batches_of, instances_of, AllFull, read_instance_batch-Yields, instances_of-batches_of,
  batches_of-dropped,
}

module _ {S A : Type 0} (read : Action S (Option A)) (p : BatchParams) where
  -- Unless the last batch is dropped, and where the batch size is not zero, the batches that the
  -- reader delivers hold every instance of the inner reader once, in order.
  pub read_instance_batch-keep :
      {i : S} {xs : List A}
      → is_dropped p.last_example_handling ≡ false
      → 0 < p.batch_size
      → Yields read i xs
      → (bs : List (InstanceBatch A)) × Yields
          (read_instance_batch read p)
          (record { reader = i; batch_idx = 0 })
          bs
        × (instances_of bs ≡ xs)
  read_instance_batch-keep {xs = xs} d pos y =
      (batches_of p xs, read_instance_batch-Yields read p pos y, instances_of-batches_of p xs d pos)

  -- Where the last batch is dropped, and the batch size is not zero, every batch that the reader
  -- delivers is full, and the instances that are lost are fewer than a batch and the last ones.
  pub read_instance_batch-drop :
      {i : S} {xs : List A}
      → is_dropped p.last_example_handling ≡ true
      → 0 < p.batch_size
      → Yields read i xs
      → (bs : List (InstanceBatch A)) × Yields
          (read_instance_batch read p)
          (record { reader = i; batch_idx = 0 })
          bs
        × AllFull p bs
        × ((ys : List A) × (instances_of bs ++ ys ≡ xs) × (length ys < p.batch_size))
  read_instance_batch-drop {xs = xs} d pos y =
      let (full, lost) = batches_of-dropped p xs d pos in
      (batches_of p xs, read_instance_batch-Yields read p pos y, full, lost)
