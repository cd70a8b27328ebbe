-- ===== src/Storage/Changes/Since.antt =====
-- ChangesSince of src/svc/internal/storage/dav.go: the loop over a map and a list of keys, and a plain
-- recursion over the rows.
use dcalcon.Base.{
  ℕ, Bool, ◌||◌, Option, none, some, List, [], ◌∷◌, ◌++◌, ◌≡◌, refl, ◌∙◌, Text, arith, same,
  same_iff, any, select, if◌then◌else◌, is_some, inl, inr, Option-cases,
}
use dcalcon.Storage.{Collection, Change, Db}
use dcalcon.Storage.Changes.{get, put, gather, values, is_since, changes_since}

-- The last change of an href among the rows, or what was known before them.
unfoldable pub last_of : Text → List Change → Option Change → Option Change
last_of h [] known = known
last_of h (c ∷ rows) known = last_of h rows (if same c.href h then some c else known)

pub last_of-href :
    (h : Text) (rows : List Change) (known : Option Change) (c : Change)
    → ((b : Change) → known ≡ some b → b.href ≡ h)
    → last_of h rows known ≡ some c
    → c.href ≡ h
unfolding last_of
last_of-href h [] known c k e = k c e
last_of-href h (b ∷ rows) known c k e =
    last_of-href h rows _ c (λ d p. ground (arith, k d, same_iff b.href h)) e

get-put :
    (m : List (Text × Change)) (k h : Text) (c : Change)
    → get (put m k c) h ≡ (if same k h then some c else get m h)
unfolding get put
get-put [] k h c = refl
get-put ((j, b) ∷ m) k h c =
    ground (arith, get-put m k h c, same_iff j k, same_iff j h, same_iff k h)

-- Under each key stands a change of that href.
pub record IsKeyed (m : List (Text × Change)) : Type 0 where
  pub at_key : (h : Text) (c : Change) → get m h ≡ some c → c.href ≡ h

IsKeyed-put : (m : List (Text × Change)) (c : Change) → IsKeyed m → IsKeyed (put m c.href c)
IsKeyed-put m c i = record {
  at_key = λ h b e. ground (arith, get-put m c.href h c, same_iff c.href h, i.at_key h b);
}

-- The hrefs of the order are the keys of the map.
pub record IsIndexed (m : List (Text × Change)) (order : List Text) : Type 0 where
  pub at : (h : Text) → any (λ k. same k h) order ≡ is_some (get m h)

any-append :
    (p : Text → Bool) (xs : List Text) (x : Text) → any p (xs ++ x ∷ []) ≡ (any p xs || p x)
unfolding any
any-append p [] x = ground arith
any-append p (y ∷ xs) x = ground (arith, any-append p xs x)

IsIndexed-put :
    (m : List (Text × Change)) (order : List Text) (c : Change)
    → IsIndexed m order
    → IsIndexed (put m c.href c) (if is_some (get m c.href) then order else order ++ c.href ∷ [])
IsIndexed-put m order c i = record {
  at = λ h. ground (
    arith,
    get-put m c.href h c,
    same_iff c.href h,
    i.at h,
    i.at c.href,
    any-append (λ k. same k h) order c.href,
  );
}

get-gather :
    (rows : List Change) (m : List (Text × Change)) (order : List Text) (h : Text)
    → get (gather rows m order).0 h ≡ last_of h rows (get m h)
unfolding gather last_of
get-gather [] m order h = refl
get-gather (c ∷ rows) m order h = get-gather rows (put m c.href c) _ h ∙ rw (get-put m c.href h c)

no_keys : IsKeyed []
unfolding get
no_keys = record { at_key = λ h c e. cc }

no_order : IsIndexed [] []
unfolding get any
no_order = record { at = λ h. refl }

gather_inv :
    (rows : List Change) (m : List (Text × Change)) (order : List Text)
    → IsKeyed m
    → IsIndexed m order
    → IsKeyed (gather rows m order).0 × IsIndexed (gather rows m order).0 (gather rows m order).1
unfolding gather
gather_inv [] m order k i = (k, i)
gather_inv (c ∷ rows) m order k i =
    gather_inv rows (put m c.href c) _ (IsKeyed-put m c k) (IsIndexed-put m order c i)

-- What a client that applies the changes in order ends with at an href: `f` says what one change
-- leaves there, and `v` is what the client had.
unfoldable pub replay {ℓ} : {A : Type ℓ} → (Change → A) → List Change → (Text → A) → Text → A
replay f [] v h = v h
replay f (c ∷ changes) v h = replay f changes (λ j. if same c.href j then f c else v j) h

abbrev pub left_by {ℓ} : {A : Type ℓ} → (Change → A) → Option Change → A → A
left_by f none a = a
left_by f (some c) a = f c

module _ {ℓ} {A : Type ℓ} (f : Change → A) where
  replay-values :
      (m : List (Text × Change)) (order : List Text) (v : Text → A) (h : Text)
      → IsKeyed m
      → replay f (values m order) v h
        ≡ (if any (λ k. same k h) order then left_by f (get m h) (v h) else v h)
  unfolding replay values any
  replay-values m [] v h i = refl
  replay-values m (k ∷ order) v h i = elim (Option-cases (get m k)) [
    | inl absent ↦ rw (absent, values) (ground (arith, same_iff k h, replay-values m order v h i))
    | inr (c, present) ↦
        let at : c.href ≡ k = i.at_key k c present in
        let rest = replay-values m order (λ j. if same c.href j then f c else v j) h i in
        rw (present, values) (ground (arith, same_iff k h, same_iff c.href h, rest))
  ]

  -- Replaying what ChangesSince reports leaves at each href what the last change of the href since
  -- the token leaves there, and what the client had where there is no such change.
  pub replay-changes_since :
      (db : Db) (kind : Collection) (collection_id since : ℕ) (v : Text → A) (h : Text)
      → replay f (changes_since db kind collection_id since) v h
        ≡ left_by f (last_of h (select (is_since kind collection_id since) db.changes) none) (v h)
  unfolding changes_since
  replay-changes_since db kind collection_id since v h =
      let rows = select (is_since kind collection_id since) db.changes in
      let inv = gather_inv rows [] [] no_keys no_order in
      replay-values (gather rows [] []).0 (gather rows [] []).1 v h inv.0
      ∙ rw (← get-gather rows [] [] h) (ground (arith, inv.1.at h))
