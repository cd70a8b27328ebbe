-- ===== src/Ratelimit/Held.antt =====
-- How long the limiter of src/svc/internal/ratelimit/ratelimit.go holds a lock: what the calls of
-- Allow, Fail and Success leave of it.
use dcalcon.Base.{
  ℕ, ◌-◌, Bool, true, false, not, Option, none, some, List, [], ◌∷◌, length, all, select, Text,
  same, same_iff, ltb, if◌then◌else◌, ◌≡◌, refl, ◌∙◌, sym, arith, Bool-cases, Option-cases, inl,
  inr,
}
use dcalcon.Ratelimit.{
  Bucket, Limiter, lookup, store, remove, is_before, gc_locked, allow_bucket, allow, bucket_or_new,
  fail, success,
}
use dcalcon.Ratelimit.Windows.{lookup-store, lookup-sweep}

-- The calls of a limiter; Hit is an Allow and a Fail.
pub data Call : Type 0 where
  ask : ℕ → Text → Call
  failing : ℕ → Text → Call
  succeeding : Text → Call

unfoldable pub run_call : Call → Option Limiter → Option Limiter
run_call (ask now key) l = (allow now key l).1
run_call (failing now key) l = (fail now key l).1
run_call (succeeding key) l = success key l

unfoldable pub run_calls : List Call → Option Limiter → Option Limiter
unfolding run_call
run_calls [] l = l
run_calls (c ∷ calls) l = run_calls calls (run_call c l)

-- A call that is made before the lock of a key ends, and is not a Fail or a Success of the key.
unfoldable pub is_within : Text → ℕ → Call → Bool
is_within key end (ask now other) = ltb now end
is_within key end (failing now other) = not (same other key)
is_within key end (succeeding other) = not (same other key)

-- When the lock of a key ends, or none.
unfoldable pub locked_at : Text → Option Limiter → Option ℕ
locked_at key none = none
locked_at key (some l) = (bucket_or_new (lookup l.buckets key)).locked_until

lookup-gc_locked :
    (now : ℕ) (l : Limiter) (key : Text) (b : Bucket)
    → lookup l.buckets key ≡ some b
    → is_before now b.locked_until ≡ true
    → lookup (gc_locked now l).buckets key ≡ some b
unfolding gc_locked
lookup-gc_locked now l key b e h = elim (Bool-cases (ltb (length l.buckets) 512)) [
  | inl few ↦ rw few e
  | inr many ↦ rw many (lookup-sweep l.window now l.buckets key b e h)
]

held_bucket :
    (key : Text) (l : Limiter) (t : ℕ)
    → locked_at key (some l) ≡ some t
    → (b : Bucket) × (lookup l.buckets key ≡ some b) × (b.locked_until ≡ some t)
unfolding locked_at
held_bucket key l t e = elim (Option-cases (lookup l.buckets key)) [
  | inl absent ↦ let g = rw (absent, locked_at) at e in absurd cc
  | inr (b, found) ↦ (b, found, rw (found, locked_at) at e)
]

swept_bucket :
    (now : ℕ) (key : Text) (l : Limiter) (t : ℕ)
    → locked_at key (some l) ≡ some t
    → ltb now t ≡ true
    → (b : Bucket) × (lookup (gc_locked now l).buckets key ≡ some b) × (b.locked_until ≡ some t)
swept_bucket now key l t e early =
    let (b, found, until) = held_bucket key l t e in
    (b, lookup-gc_locked now l key b found (rw until early), until)

allow_bucket-locked :
    (window now t : ℕ) (b : Bucket)
    → b.locked_until ≡ some t
    → ltb now t ≡ true
    → allow_bucket window now b ≡ ((false, t - now), b)
unfolding allow_bucket
allow_bucket-locked window now t b until early = rw until (rw early refl)

-- Allow refuses a key that is locked, and answers how long is left.
pub allow-locked :
    (now t : ℕ) (key : Text) (l : Option Limiter)
    → locked_at key l ≡ some t
    → ltb now t ≡ true
    → (allow now key l).0 ≡ (false, t - now)
unfolding allow locked_at
allow-locked now t key none e early = absurd cc
allow-locked now t key (some l) e early =
    let (b, found, until) = swept_bucket now key l t e early in
    rw (found, allow_bucket-locked (gc_locked now l).window now t b until early, allow) refl

pub locked_at-store :
    (key other : Text) (l : Limiter) (left : Bucket)
    → locked_at key (some (record l { buckets = store l.buckets other left }))
      ≡ (if same other key then left.locked_until else locked_at key (some l))
unfolding locked_at
locked_at-store key other l left = elim (Bool-cases (same other key)) [
  | inl own ↦ rw (lookup-store l.buckets other left key, own, locked_at) refl
  | inr not_own ↦ rw (lookup-store l.buckets other left key, not_own, locked_at) refl
]

locked_at-found :
    (key : Text) (l : Limiter) (b : Bucket) (t : ℕ)
    → lookup l.buckets key ≡ some b
    → b.locked_until ≡ some t
    → locked_at key (some l) ≡ some t
unfolding locked_at
locked_at-found key l b t found until = rw (found, locked_at) until

-- What Allow leaves where it finds a bucket, and where it does not.
allow-left :
    (now : ℕ) (other : Text) (l : Limiter) (c : Bucket)
    → lookup (gc_locked now l).buckets other ≡ some c
    → (allow now other (some l)).1
      ≡ some (record (gc_locked now l) {
        buckets =
            store (gc_locked now l).buckets other (allow_bucket (gc_locked now l).window now c).1;
      })
unfolding allow
allow-left now other l c found = rw (found, allow) refl

allow-left-none :
    (now : ℕ) (other : Text) (l : Limiter)
    → lookup (gc_locked now l).buckets other ≡ none
    → (allow now other (some l)).1 ≡ some (gc_locked now l)
unfolding allow
allow-left-none now other l absent = rw (absent, allow) refl

-- An Allow of any key before the lock of a key ends keeps the lock.
pub locked_at-allow :
    (now t : ℕ) (key other : Text) (l : Option Limiter)
    → locked_at key l ≡ some t
    → ltb now t ≡ true
    → locked_at key (allow now other l).1 ≡ some t
unfolding locked_at
locked_at-allow now t key other none e early = absurd cc
locked_at-allow now t key other (some l) e early =
    let (b, found, until) = swept_bucket now key l t e early in
    let held = locked_at-found key (gc_locked now l) b t found until in
    elim (Option-cases (lookup (gc_locked now l).buckets other)) [
      | inl absent ↦ rw (allow-left-none now other l absent) held
      | inr (c, at_other) ↦ elim (Bool-cases (same other key)) [
        | inl own ↦
            let key_is : other ≡ key = (same_iff other key).0 own in
            let bucket_is : some c ≡ some b = sym at_other ∙ rw key_is found in
            let c_is : c ≡ b = cc in
            rw (allow-left now other l c at_other) (
              locked_at-store key other (gc_locked now l) _
              ∙ rw own (
                  rw (c_is, allow_bucket-locked (gc_locked now l).window now t b until early)
                    until))
        | inr not_own ↦
            rw (allow-left now other l c at_other)
              (locked_at-store key other (gc_locked now l) _ ∙ rw not_own held)
      ]
    ]

-- A Fail of another key keeps the lock of a key.
pub locked_at-fail :
    (now : ℕ) (key other : Text) (l : Option Limiter)
    → same other key ≡ false
    → locked_at key (fail now other l).1 ≡ locked_at key l
unfolding fail
locked_at-fail now key other none not_own = refl
locked_at-fail now key other (some l) not_own = locked_at-store key other l _ ∙ rw not_own refl

lookup-remove-other :
    (buckets : List (Text × Bucket)) (key other : Text)
    → same other key ≡ false
    → lookup (remove buckets other) key ≡ lookup buckets key
unfolding lookup remove select
lookup-remove-other [] key other not_own = refl
lookup-remove-other ((k, a) ∷ buckets) key other not_own = ground (
  arith,
  lookup-remove-other buckets key other not_own,
  same_iff k key,
  same_iff k other,
  same_iff other key,
)

-- A Success of another key keeps the lock of a key.
pub locked_at-success :
    (key other : Text) (l : Option Limiter)
    → same other key ≡ false
    → locked_at key (success other l) ≡ locked_at key l
unfolding success locked_at
locked_at-success key other none not_own = refl
locked_at-success key other (some l) not_own =
    rw (lookup-remove-other l.buckets key other not_own, locked_at) refl

pub locked_at-run_calls :
    (calls : List Call) (key : Text) (t : ℕ) (l : Option Limiter)
    → locked_at key l ≡ some t
    → all (is_within key t) calls ≡ true
    → locked_at key (run_calls calls l) ≡ some t
unfolding run_calls run_call all is_within
locked_at-run_calls [] key t l e within = e
locked_at-run_calls (ask now other ∷ calls) key t l e within =
    locked_at-run_calls calls key t _ (locked_at-allow now t key other l e (ground arith))
      (ground arith)
locked_at-run_calls (failing now other ∷ calls) key t l e within =
    locked_at-run_calls calls key t _ (locked_at-fail now key other l (ground arith) ∙ e)
      (ground arith)
locked_at-run_calls (succeeding other ∷ calls) key t l e within =
    locked_at-run_calls calls key t _ (locked_at-success key other l (ground arith) ∙ e)
      (ground arith)
