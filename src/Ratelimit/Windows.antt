-- ===== src/Ratelimit/Windows.antt =====
-- The association list of buckets, and what a sweep leaves of it.
use dcalcon.Base.{
  ℕ, true, none, some, List, [], ◌∷◌, select, all, Text, same, same_iff, if◌then◌else◌, ◌≡◌, refl,
  arith,
}
use dcalcon.Ratelimit.{Bucket, lookup, store, remove, is_recent, prune, is_before, sweep}

pub lookup-store :
    (buckets : List (Text × Bucket)) (key : Text) (b : Bucket) (other : Text)
    → lookup (store buckets key b) other ≡ (if same key other then some b else lookup buckets other)
unfolding lookup store
lookup-store [] key b other = refl
lookup-store ((k, a) ∷ buckets) key b other =
    ground (
      arith,
      lookup-store buckets key b other,
      same_iff k key,
      same_iff key other,
      same_iff k other,
    )

pub lookup-remove :
    (buckets : List (Text × Bucket)) (key : Text) → lookup (remove buckets key) key ≡ none
unfolding lookup remove select
lookup-remove [] key = refl
lookup-remove ((k, a) ∷ buckets) key = ground (arith, lookup-remove buckets key)

-- A sweep keeps a bucket that is still locked.
pub lookup-sweep :
    (window now : ℕ) (buckets : List (Text × Bucket)) (key : Text) (b : Bucket)
    → lookup buckets key ≡ some b
    → is_before now b.locked_until ≡ true
    → lookup (sweep window now buckets) key ≡ some b
unfolding lookup sweep
lookup-sweep window now [] key b e h = cc
lookup-sweep window now ((k, a) ∷ buckets) key b e h =
    ground (arith, lookup-sweep window now buckets key b)

-- A sweep adds no key.
pub lookup-sweep-none :
    (window now : ℕ) (buckets : List (Text × Bucket)) (key : Text)
    → lookup buckets key ≡ none
    → lookup (sweep window now buckets) key ≡ none
unfolding lookup sweep
lookup-sweep-none window now [] key e = refl
lookup-sweep-none window now ((k, a) ∷ buckets) key e =
    ground (arith, lookup-sweep-none window now buckets key)

pub prune-all :
    (window now : ℕ) (fails : List ℕ)
    → all (is_recent window now) fails ≡ true
    → prune window now fails ≡ fails
unfolding prune select all
prune-all window now [] h = refl
prune-all window now (t ∷ fails) h = ground (arith, prune-all window now fails)

-- A pruned list has only failures in the window.
pub all-prune :
    (window now : ℕ) (fails : List ℕ) → all (is_recent window now) (prune window now fails) ≡ true
unfolding prune select all
all-prune window now [] = refl
all-prune window now (t ∷ fails) = ground (arith, all-prune window now fails)
