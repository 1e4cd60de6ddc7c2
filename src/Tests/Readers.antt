-- ===== src/Tests/Readers.antt =====
-- The instance readers over a list of numbers.
use mathlib.Core.List.Perm
use ml_io.Base.{
  ℕ, zero, suc, ◌+◌, ◌*◌, ◌/◌, ◌<◌, ◌≡◌, refl, true, false, Option, none, some, List, [], ◌∷◌, ◌++◌,
  length, drop, get_elem?, Perm, arith,
}
use ml_io.Action.{Result, ok, Action, data_reader_error, record_corrupt_at}
use ml_io.Records.{Record, begin, complete}
use ml_io.Instances.Yields.{Yields, done, more}
use ml_io.Instances.Peek
use ml_io.Instances.Peek.{Peekable, fresh, read_instance, peek_instance, head_of}
use ml_io.Instances.Ranged
use ml_io.Instances.Ranged.{Range, in_range}
use ml_io.Instances.Sharded
use ml_io.Instances.Sharded.{Shard, shard_of, every}
use ml_io.Instances.Sampled
use ml_io.Instances.Sampled.{Sample, num_instances_to_read}
use ml_io.Instances.Sampled.Laws as SampledLaws
use ml_io.Instances.Sampled.Laws.{sample_of, sample_rounds}
use ml_io.Instances.Shuffled
use ml_io.Instances.Shuffled.{Random, Shuffle, size_max}
use ml_io.Instances.Shuffled.Laws as ShuffledLaws
use ml_io.Instances.Reader.{
  InstanceReader, of_hooks, Delivers, IsRestartable, Delivers-of_hooks, IsRestartable-of_hooks,
}
use ml_io.Instances.Pipeline.{ReaderParams, make_instance_reader}
use ml_io.Instances.Pipeline.Laws.{
  PassesChecks, IsValid, RandomLaws, selected, make_instance_reader-Delivers,
  make_instance_reader-IsRestartable,
}
use ml_io.Instances.Batches.{
  is_dropped, BatchParams, InstanceBatch, keep, drop_warn, pad_warn, read_instance_batch,
}
use ml_io.Instances.Batches.Laws.{instances_of, AllFull}
use ml_io.Instances.Batches.Sequence.{IsSequence, read_instance_batch-IsSequence}
use ml_io.Instances.Batches.Contents.{read_instance_batch-keep, read_instance_batch-drop}
use ml_io.Instances.Core
use ml_io.Instances.Core.Faults.{Fails, behind_begin, wrong_rest}
use ml_io.Instances.Core.{Source}
use ml_io.Instances.Core.Laws.{Content, whole, holds, Pieces, records_of}
use ml_io.Instances.Core.Dataset
use ml_io.Instances.Core.Dataset.{opens_whole, opens_records}
use ml_io.Instances.Core.Faults

-- A reader that takes its items from a list.
abbrev take_next : {A : Type 0} → Action (List A) (Option A)
take_next [] = (ok none, [])
take_next (x ∷ xs) = (ok (some x), xs)

take_next-Yields : {A : Type 0} (xs : List A) → Yields take_next xs xs
take_next-Yields [] = done refl refl
take_next-Yields (x ∷ xs) = more refl (take_next-Yields xs)

abbrev ten : List ℕ
ten = 1 ∷ 2 ∷ 3 ∷ 4 ∷ 5 ∷ 6 ∷ 7 ∷ 8 ∷ 9 ∷ 10 ∷ []

abbrev upto : ℕ → List ℕ
upto zero = []
upto (suc n) = n ∷ upto n

abbrev ten_reader : InstanceReader ℕ
ten_reader = of_hooks ten take_next (λ _. ten)

ten_reader-Delivers : Delivers ten_reader ten
ten_reader-Delivers = Delivers-of_hooks ten take_next (λ _. ten) (take_next-Yields ten)

ten_reader-IsRestartable : IsRestartable ten_reader
ten_reader-IsRestartable = IsRestartable-of_hooks ten take_next (λ _. ten) (λ _. refl)

-- An engine whose draws are all zero and that leaves a list as it is.
abbrev still : Random ℕ
still = record { Engine = ℕ; seed = λ s. s; draw = λ m r. (0, r); shuffle = λ c r. (c, r) }

still-RandomLaws : RandomLaws still
still-RandomLaws = record { draws = λ m r. omega arith; shuffles = λ c r. Perm.refl c }

abbrev some_range : Range
some_range = record { num_instances_to_skip = 1; num_instances_to_read = some 6 }

abbrev second_of_two : Shard
second_of_two = record { shard_index = 1; num_shards = 2 }

abbrev half : Sample
half = record { ratio_within = true; num_keep = λ n. n / 2 }

abbrev tiny : Sample
tiny = record { ratio_within = true; num_keep = λ n. n / 200 }

abbrev window_of_two : Shuffle
window_of_two = record { shuffle_window = 2; seed = 7; reshuffle_each_epoch = false }

abbrev some_params : ReaderParams
some_params = record {
  range = some_range;
  shard = second_of_two;
  sample = some half;
  shuffle_instances = true;
  shuffle = window_of_two;
}

some_params-PassesChecks : PassesChecks some_params
some_params-PassesChecks = record { shard_within = λ _. omega arith; ratio_valid = refl }

some_params-IsValid : IsValid some_params
some_params-IsValid = record {
  passes = some_params-PassesChecks;
  keeps = omega arith;
  window_bounded = omega arith;
}

selected-some_params : selected some_params ten ≡ 3 ∷ []
unfolding sample_rounds every
selected-some_params = refl

make_instance_reader-Delivers_example :
    (r : InstanceReader ℕ) × (ys : List ℕ) × (make_instance_reader some_params still ten_reader
      ≡ ok r)
    × Delivers r ys
    × Perm ys (selected some_params ten)
    × (some_params.shuffle_instances ≡ false → ys ≡ selected some_params ten)
make_instance_reader-Delivers_example =
    make_instance_reader-Delivers some_params still ten_reader ten some_params-IsValid
      still-RandomLaws (rw selected-some_params (omega arith)) ten_reader-Delivers

make_instance_reader-IsRestartable_example :
    (r : InstanceReader ℕ) × (make_instance_reader some_params still ten_reader ≡ ok r)
    × IsRestartable r
make_instance_reader-IsRestartable_example =
    make_instance_reader-IsRestartable some_params still ten_reader some_params-PassesChecks
      (λ _. refl) ten_reader-IsRestartable

in_range-Yields_example :
    Yields
      (Ranged.read_instance_core take_next some_range)
      (Ranged.start ten)
      (in_range some_range ten)
in_range-Yields_example = Ranged.in_range-Yields take_next some_range (take_next-Yields ten)

shard-Yields_example :
    (ys : List ℕ) × Yields
      (Sharded.read_instance_core take_next second_of_two)
      (Sharded.start ten)
      ys
    × ((j : ℕ) → get_elem? ys j ≡ get_elem? ten (1 + j * 2))
shard-Yields_example =
    Sharded.shard-Yields take_next second_of_two (omega arith) (take_next-Yields ten)

sample_of-Yields_example :
    Yields (Sampled.read_instance_core take_next half) (Sampled.start ten) (sample_of half ten)
sample_of-Yields_example =
    SampledLaws.sample_of-Yields take_next half (omega arith) (take_next-Yields ten)

read_instance_core_empty_example :
    (t : List ℕ) × (Sampled.read_instance_core take_next tiny (Sampled.start (upto 150))
      ≡ (ok none, Sampled.start t))
    × Yields take_next t (drop num_instances_to_read (upto 150))
read_instance_core_empty_example =
    SampledLaws.read_instance_core_empty take_next tiny refl (omega arith)
      (take_next-Yields (upto 150))

shuffled-Yields_example :
    (ys : List ℕ) × Yields
      (Shuffled.read_instance_core still take_next window_of_two)
      (Shuffled.start still window_of_two ten)
      ys
    × Perm ys ten
shuffled-Yields_example =
    ShuffledLaws.shuffled-Yields still take_next window_of_two (λ r. omega arith)
      (λ c r. Perm.refl c) (omega arith) (omega arith) (take_next-Yields ten)

peek-Yields_example :
    (t : Peekable (List ℕ) ℕ) × (peek_instance take_next (fresh ten) ≡ (ok (head_of ten), t))
    × Yields (read_instance take_next) t ten
peek-Yields_example =
    Peek.peek-Yields take_next (Peek.Yields-read_instance take_next (take_next-Yields ten))

abbrev by_three : BatchParams
by_three = record { batch_size = 3; last_example_handling = keep }

abbrev by_three_dropped : BatchParams
by_three_dropped = record { batch_size = 3; last_example_handling = drop_warn }

abbrev by_three_padded : BatchParams
by_three_padded = record { batch_size = 3; last_example_handling = pad_warn }

read_instance_batch-keep_example :
    (bs : List (InstanceBatch ℕ)) × Yields
      (read_instance_batch take_next by_three)
      (record { reader = ten; batch_idx = 0 })
      bs
    × (instances_of bs ≡ ten)
unfolding is_dropped
read_instance_batch-keep_example =
    read_instance_batch-keep take_next by_three refl (omega arith) (take_next-Yields ten)

read_instance_batch-drop_example :
    (bs : List (InstanceBatch ℕ)) × Yields
      (read_instance_batch take_next by_three_dropped)
      (record { reader = ten; batch_idx = 0 })
      bs
    × AllFull by_three_dropped bs
    × ((ys : List ℕ) × (instances_of bs ++ ys ≡ ten) × (length ys < 3))
unfolding is_dropped
read_instance_batch-drop_example =
    read_instance_batch-drop take_next by_three_dropped refl (omega arith) (take_next-Yields ten)

-- The last batch is not padded.
read_instance_batch-IsSequence_example :
    (bs : List (InstanceBatch ℕ)) × Yields
      (read_instance_batch take_next by_three_padded)
      (record { reader = ten; batch_idx = 0 })
      bs
    × IsSequence by_three_padded 0 bs
read_instance_batch-IsSequence_example =
    read_instance_batch-IsSequence take_next by_three_padded (omega arith) (take_next-Yields ten)

-- Two stores: of the numbers of the stores, 0 has no reader, and others give two instances, one of
-- them in three pieces.
abbrev pieces : List Pieces
pieces = ((1 ∷ []), []) ∷ ((2 ∷ []), (3 ∷ []) ∷ (4 ∷ 5 ∷ []) ∷ []) ∷ []

abbrev reader_of : ℕ → Result (Option (List Record))
reader_of zero = ok none
reader_of (suc n) = ok (some (records_of pieces))

abbrev two_stores : Source
two_stores = record {
  Store = ℕ;
  RecordReader = List Record;
  make_record_reader = reader_of;
  read_record = take_next;
}

abbrev dataset : List (ℕ × Content)
dataset = (1, holds pieces) ∷ (0, whole) ∷ []

instances-Yields_example :
    Yields
      (Core.read_instance_core two_stores 8)
      (Core.start two_stores (Dataset.stores two_stores 8 dataset))
      (Dataset.instances two_stores 8 dataset)
instances-Yields_example = Dataset.instances-Yields two_stores 8 dataset (
  opens_records (records_of pieces) pieces refl (take_next-Yields (records_of pieces)),
  (omega arith, (omega arith, tt)),
  (opens_whole refl, tt, tt),
)

-- Behind the first record of a split record comes a complete one.
abbrev broken : List Record
broken =
    record { payload = 1 ∷ []; kind = begin } ∷ record { payload = 2 ∷ []; kind = complete } ∷ []

-- Behind the payloads stands a split record that another record breaks off.
abbrev broken_reader_of : ℕ → Result (Option (List Record))
broken_reader_of zero = ok none
broken_reader_of (suc n) = ok (some (records_of pieces ++ broken))

abbrev broken_stores : Source
broken_stores = record {
  Store = ℕ;
  RecordReader = List Record;
  make_record_reader = broken_reader_of;
  read_record = take_next;
}

Broken-Fails_example :
    Fails
      (Core.read_instance_core broken_stores 8)
      (data_reader_error (record_corrupt_at 6))
      (Core.start broken_stores (0 ∷ 5 ∷ 7 ∷ []))
      (Dataset.instances broken_stores 8 ((0, whole) ∷ [])
        ++ Dataset.numbered broken_stores 8 5 0 pieces)
Broken-Fails_example =
    Faults.Broken-Fails broken_stores 8 ((0, whole) ∷ []) (7 ∷ []) 5 (records_of pieces ++ broken)
      pieces broken 2 (Dataset.opens_whole refl, tt, tt) refl (omega arith, (omega arith, tt))
      (behind_begin (1 ∷ []) (wrong_rest complete (2 ∷ []) tt)) (omega arith)
      (take_next-Yields (records_of pieces ++ broken))
