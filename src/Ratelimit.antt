-- ===== src/Ratelimit.antt =====
-- src/svc/internal/ratelimit/ratelimit.go. A time and a duration are nanoseconds; what time.Now()
-- returned in a call is the argument `now`. The zero time is `none`. The limiter's mutex makes each
-- call one step. A map is an association list in which `lookup` finds the first entry.
pub mod Windows
pub mod Held
pub mod Lockout
use dcalcon.Base.{
  ℕ, ◌+◌, ◌-◌, Bool, true, false, not, ◌&&◌, Option, none, some, List, [], ◌∷◌, ◌++◌, length,
  select, Text, same, ltb, leb, if◌then◌else◌,
}

-- bucket
pub record Bucket : Type 0 where
  pub fails : List ℕ
  pub locked_until : Option ℕ

-- Limiter
pub record Limiter : Type 0 where
  pub max : ℕ
  pub window : ℕ
  pub lockout : ℕ
  pub buckets : List (Text × Bucket)

-- 15 * time.Minute
abbrev pub fifteen_minutes : ℕ
fifteen_minutes = 900000000000

abbrev pub or_default : ℕ → ℕ → ℕ
or_default n d = if leb n 0 then d else n

-- New
unfoldable pub new : ℕ → ℕ → ℕ → Limiter
new max window lockout = record {
  max = or_default max 8;
  window = or_default window fifteen_minutes;
  lockout = or_default lockout fifteen_minutes;
  buckets = [];
}

unfoldable pub lookup : List (Text × Bucket) → Text → Option Bucket
lookup [] key = none
lookup ((k, b) ∷ buckets) key = if same k key then some b else lookup buckets key

unfoldable pub store : List (Text × Bucket) → Text → Bucket → List (Text × Bucket)
store [] key b = (key, b) ∷ []
store ((k, a) ∷ buckets) key b =
    if same k key then (k, b) ∷ buckets else (k, a) ∷ store buckets key b

-- delete(m, key)
unfoldable pub remove : List (Text × Bucket) → Text → List (Text × Bucket)
remove buckets key = select (λ (e : Text × Bucket). not (same e.0 key)) buckets

-- t.After(now.Add(-window))
abbrev pub is_recent : ℕ → ℕ → ℕ → Bool
is_recent window now t = ltb now (t + window)

-- prune(fails, now.Add(-window))
unfoldable pub prune : ℕ → ℕ → List ℕ → List ℕ
prune window now fails = select (is_recent window now) fails

-- now.Before(lockedUntil)
abbrev pub is_before : ℕ → Option ℕ → Bool
is_before now none = false
is_before now (some t) = ltb now t

abbrev pub is_empty : List ℕ → Bool
is_empty [] = true
is_empty (t ∷ ts) = false

-- The loop of gcLocked.
unfoldable pub sweep : ℕ → ℕ → List (Text × Bucket) → List (Text × Bucket)
unfolding prune
sweep window now [] = []
sweep window now ((k, b) ∷ buckets) =
    let rest = sweep window now buckets in
    let kept = prune window now b.fails in
    if is_before now b.locked_until
    then (k, b) ∷ rest
    else if is_empty kept
    then rest
    else (k, record b { fails = kept }) ∷ rest

-- gcLocked
unfoldable pub gc_locked : ℕ → Limiter → Limiter
unfolding sweep
gc_locked now l =
    if ltb (length l.buckets) 512 then l else record l { buckets = sweep l.window now l.buckets }

-- What Allow answers about a bucket, and what it leaves of it.
unfoldable pub allow_bucket : ℕ → ℕ → Bucket → (Bool × ℕ) × Bucket
unfolding prune
allow_bucket window now b = elim b.locked_until [
  | some t ↦
      if ltb now t
      then ((false, t - now), b)
      else ((true, 0), record { fails = []; locked_until = none })
  | none ↦ ((true, 0), record b { fails = prune window now b.fails })
]

-- Allow; the limiter nil is `none`.
unfoldable pub allow : ℕ → Text → Option Limiter → (Bool × ℕ) × Option Limiter
unfolding gc_locked lookup store allow_bucket
allow now key none = ((true, 0), none)
allow now key (some l) =
    let swept = gc_locked now l in
    elim (lookup swept.buckets key) [
      | none ↦ ((true, 0), some swept)
      | some b ↦
          let (answer, left) = allow_bucket swept.window now b in
          (answer, some (record swept { buckets = store swept.buckets key left }))
    ]

abbrev pub bucket_or_new : Option Bucket → Bucket
bucket_or_new none = record { fails = []; locked_until = none }
bucket_or_new (some b) = b

-- Fail
unfoldable pub fail : ℕ → Text → Option Limiter → (Bool × ℕ) × Option Limiter
unfolding lookup store prune
fail now key none = ((false, 0), none)
fail now key (some l) =
    let b = bucket_or_new (lookup l.buckets key) in
    let fails = prune l.window now b.fails ++ now ∷ [] in
    let locked = leb l.max (length fails) in
    let left : Bucket = record {
      fails = fails;
      locked_until = if locked then some (now + l.lockout) else b.locked_until;
    } in
    (
      if locked then (true, l.lockout) else (false, 0),
      some (record l { buckets = store l.buckets key left }),
    )

-- Hit; Allow and Fail each read the clock.
unfoldable pub hit : ℕ → ℕ → Text → Option Limiter → (Bool × ℕ) × Option Limiter
unfolding allow fail
hit now later key l =
    let ((allowed, wait), l1) = allow now key l in
    if not allowed
    then ((false, wait), l1)
    else let ((locked, retry), l2) = fail later key l1 in
      if locked then ((false, retry), l2) else ((true, 0), l2)

-- Success
unfoldable pub success : Text → Option Limiter → Option Limiter
unfolding remove
success key none = none
success key (some l) = some (record l { buckets = remove l.buckets key })
