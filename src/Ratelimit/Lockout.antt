-- ===== src/Ratelimit/Lockout.antt =====
-- What Allow answers after Fail and Success.
use dcalcon.Base.{
  ℕ, ◌+◌, ◌-◌, ◌<◌, ◌≤◌, Bool, true, false, Option, none, some, List, [], ◌∷◌, ◌++◌, length, all,
  Text, same_refl, ltb, leb, if◌then◌else◌, ◌≡◌, refl, ◌∙◌, arith, Bool-cases, inl, inr,
  length-append,
}
use dcalcon.Ratelimit.{
  Bucket, Limiter, lookup, store, is_recent, prune, gc_locked, allow, bucket_or_new, fail, success,
}
use dcalcon.Ratelimit.Held.{
  Call, run_calls, is_within, locked_at, allow-locked, locked_at-run_calls, locked_at-store,
}
use dcalcon.Ratelimit.Windows.{lookup-store, lookup-remove, lookup-sweep-none, prune-all}

lookup-gc_locked-none :
    (now : ℕ) (l : Limiter) (key : Text)
    → lookup l.buckets key ≡ none
    → lookup (gc_locked now l).buckets key ≡ none
unfolding gc_locked
lookup-gc_locked-none now l key e = elim (Bool-cases (ltb (length l.buckets) 512)) [
  | inl few ↦ rw few e
  | inr many ↦ rw many (lookup-sweep-none l.window now l.buckets key e)
]

abbrev counted : ℕ → Text → Limiter → List ℕ
counted now key l = prune l.window now (bucket_or_new (lookup l.buckets key)).fails ++ now ∷ []

abbrev left_bucket : ℕ → Text → Limiter → Bucket
left_bucket now key l = record {
  fails = counted now key l;
  locked_until =
      if leb l.max (length (counted now key l))
      then some (now + l.lockout)
      else (bucket_or_new (lookup l.buckets key)).locked_until;
}

not_locked :
    (now : ℕ) (key : Text) (l : Limiter)
    → leb l.max (length (counted now key l)) ≡ false
    → (fail now key (some l)).0.0 ≡ false
unfolding fail
not_locked now key l free = rw free refl

left_bucket-locked :
    (now : ℕ) (key : Text) (l : Limiter)
    → (fail now key (some l)).0.0 ≡ true
    → (left_bucket now key l).locked_until ≡ some (now + l.lockout)
left_bucket-locked now key l locked = elim (Bool-cases (leb l.max (length (counted now key l)))) [
  | inl full ↦ rw full refl
  | inr free ↦ absurd (cc (not_locked now key l free, locked))
]

-- A Fail that answers that the key is locked sets its lock.
pub locked_at-locks :
    (now : ℕ) (key : Text) (l : Limiter)
    → (fail now key (some l)).0.0 ≡ true
    → locked_at key (fail now key (some l)).1 ≡ some (now + l.lockout)
unfolding fail
locked_at-locks now key l locked =
    locked_at-store key key l (left_bucket now key l)
    ∙ rw (same_refl key) (left_bucket-locked now key l locked)

-- After a Fail that answers that the key is locked, and then any calls of Allow, of whatever keys,
-- before the lockout ends and any calls of Fail and Success with other keys, Allow refuses the key
-- at each time before the lockout ends, and answers how long is left.
pub fail-locks :
    (now later : ℕ) (key : Text) (l : Limiter) (calls : List Call)
    → (fail now key (some l)).0.0 ≡ true
    → all (is_within key (now + l.lockout)) calls ≡ true
    → later < now + l.lockout
    → (allow later key (run_calls calls (fail now key (some l)).1)).0
      ≡ (false, (now + l.lockout) - later)
fail-locks now later key l calls locked within h =
    allow-locked later (now + l.lockout) key _
      (locked_at-run_calls calls key (now + l.lockout) _ (locked_at-locks now key l locked) within)
      (ground arith)

allow-absent :
    (now : ℕ) (key : Text) (l : Limiter)
    → lookup l.buckets key ≡ none
    → (allow now key (some l)).0 ≡ (true, 0)
unfolding allow
allow-absent now key l e = rw (lookup-gc_locked-none now l key e, allow) refl

-- After Success, Allow lets the key through at any time.
pub success-allows :
    (now : ℕ) (key : Text) (l : Option Limiter) → (allow now key (success key l)).0 ≡ (true, 0)
unfolding success
success-allows now key none = unfold allow in refl
success-allows now key (some l) = allow-absent now key _ (lookup-remove l.buckets key)

-- The failures of a key, one after the other.
unfoldable pub fail_all : List ℕ → Text → Option Limiter → Option Limiter
fail_all [] key l = l
fail_all (t ∷ ts) key l = fail_all ts key (fail t key l).1

all-later :
    (window now later : ℕ) (ts : List ℕ)
    → now ≤ later
    → all (is_recent window later) ts ≡ true
    → all (is_recent window now) ts ≡ true
unfolding all
all-later window now later [] h e = refl
all-later window now later (t ∷ ts) h e = ground (arith, all-later window now later ts)

all-more :
    (p : ℕ → Bool) (ts : List ℕ) (t : ℕ)
    → all p ts ≡ true
    → p t ≡ true
    → all p (ts ++ t ∷ []) ≡ true
unfolding all
all-more p [] t h k = ground arith
all-more p (s ∷ ts) t h k = ground (arith, all-more p ts t)

fails_of : Text → Limiter → List ℕ
fails_of key l = (bucket_or_new (lookup l.buckets key)).fails

counted-recent :
    (now : ℕ) (key : Text) (l : Limiter) (ts : List ℕ)
    → fails_of key l ≡ ts
    → all (is_recent l.window now) ts ≡ true
    → counted now key l ≡ ts ++ now ∷ []
unfolding fails_of
counted-recent now key l ts held recent = rw (held, prune-all l.window now ts recent) refl

fail-answer :
    (now : ℕ) (key : Text) (l : Limiter) (ts : List ℕ)
    → counted now key l ≡ ts ++ now ∷ []
    → (fail now key (some l)).0
      ≡ (if leb l.max (length ts + 1) then (true, l.lockout) else (false, 0))
unfolding fail
fail-answer now key l ts e = rw (e, length-append ts (now ∷ [])) refl

fails_of-fail :
    (now : ℕ) (key : Text) (l : Limiter)
    → fails_of key (record l { buckets = store l.buckets key (left_bucket now key l) })
      ≡ counted now key l
unfolding fails_of
fails_of-fail now key l =
    rw (lookup-store l.buckets key (left_bucket now key l) key, same_refl key, fails_of) refl

counts :
    (ts : List ℕ) (now : ℕ) (key : Text) (l : Limiter) (held : List ℕ) (n : ℕ)
    → length held + length ts + 1 ≡ n
    → fails_of key l ≡ held
    → all (is_recent l.window now) held ≡ true
    → all (is_recent l.window now) ts ≡ true
    → all (λ t. leb t now) ts ≡ true
    → (fail now key (fail_all ts key (some l))).0
      ≡ (if leb l.max n then (true, l.lockout) else (false, 0))
unfolding fail_all all fail
counts [] now key l held n total e old recent past =
    let m : length held + 1 ≡ n = omega (arith, total) in
    fail-answer now key l held (counted-recent now key l held e old) ∙ rw m refl
counts (t ∷ ts) now key l held n total e old recent past =
    let c = counted-recent t key l held e (all-later l.window t now held (ground arith) old) in
    counts ts now key (record l { buckets = store l.buckets key (left_bucket t key l) })
      (held ++ t ∷ []) n (rw (length-append held (t ∷ [])) (omega (arith, total)))
      (fails_of-fail t key l ∙ c) (all-more _ held t old (ground arith)) (ground arith)
      (ground arith)

-- A key with no bucket that fails at some times, all within one window of a later call and none
-- after it, is locked by the Fail of that call exactly when the failures are then as many as the
-- maximum.
pub fail_all-counts :
    (ts : List ℕ) (now : ℕ) (key : Text) (l : Limiter)
    → lookup l.buckets key ≡ none
    → all (is_recent l.window now) ts ≡ true
    → all (λ t. leb t now) ts ≡ true
    → (fail now key (fail_all ts key (some l))).0
      ≡ (if leb l.max (length ts + 1) then (true, l.lockout) else (false, 0))
unfolding fails_of all
fail_all-counts ts now key l fresh recent past =
    counts ts now key l [] (length ts + 1) (omega arith) (rw (fresh, fails_of) refl) refl recent
      past
