-- ===== src/Base/Lists.antt =====
-- Lists measured by native numbers, and the loops over lists that the components share.
use Prim.Native.Nat.{ℕ, zero, suc, ◌+◌, ◌≤◌}
use mathlib.Core.Path.{◌≡◌, refl}
use mathlib.Core.Bool.{Bool, true, false, not, ◌&&◌, ◌||◌}
use mathlib.Core.List.{List, [], ◌∷◌, ◌++◌}
use mathlib.Core.Option.{Option, none, some}
use native.Mathlib.Omega.{arith}
use dcalcon.Base.Tests.{if◌then◌else◌, is_some, opt_map, Bool-cases}
use mathlib.Core.Logic.{inl, inr}

module _ {ℓ} {A : Type ℓ} where
  abbrev pub length : List A → ℕ
  length [] = 0
  length (x ∷ xs) = suc (length xs)

  abbrev pub take : ℕ → List A → List A
  take zero xs = []
  take (suc n) [] = []
  take (suc n) (x ∷ xs) = x ∷ take n xs

  abbrev pub drop : ℕ → List A → List A
  drop zero xs = xs
  drop (suc n) [] = []
  drop (suc n) (x ∷ xs) = drop n xs

  -- The elements that pass a test, in order.
  unfoldable pub select : (A → Bool) → List A → List A
  select p [] = []
  select p (x ∷ xs) = let rest = select p xs in if p x then x ∷ rest else rest

  -- The first element that passes a test.
  unfoldable pub find_first : (A → Bool) → List A → Option A
  find_first p [] = none
  find_first p (x ∷ xs) = if p x then some x else find_first p xs

  unfoldable pub any : (A → Bool) → List A → Bool
  any p [] = false
  any p (x ∷ xs) = p x || any p xs

  unfoldable pub all : (A → Bool) → List A → Bool
  all p [] = true
  all p (x ∷ xs) = p x && all p xs

  unfoldable pub count : (A → Bool) → List A → ℕ
  count p [] = 0
  count p (x ∷ xs) = if p x then suc (count p xs) else count p xs

  pub length-append : (xs ys : List A) → length (xs ++ ys) ≡ length xs + length ys
  length-append [] ys = omega arith
  length-append (x ∷ xs) ys = omega (arith, length-append xs ys)

  pub length-select-le : (p : A → Bool) (xs : List A) → length (select p xs) ≤ length xs
  unfolding select
  length-select-le p [] = omega arith
  length-select-le p (x ∷ xs) = ground (arith, length-select-le p xs)

  pub select-append :
      (p : A → Bool) (xs ys : List A) → select p (xs ++ ys) ≡ select p xs ++ select p ys
  unfolding select
  select-append p [] ys = refl
  select-append p (x ∷ xs) ys = ground (arith, select-append p xs ys)

  pub all-append : (p : A → Bool) (xs ys : List A) → all p (xs ++ ys) ≡ (all p xs && all p ys)
  unfolding all
  all-append p [] ys = refl
  all-append p (x ∷ xs) ys = ground (arith, all-append p xs ys)

  pub any-append : (p : A → Bool) (xs ys : List A) → any p (xs ++ ys) ≡ (any p xs || any p ys)
  unfolding any
  any-append p [] ys = refl
  any-append p (x ∷ xs) ys = ground (arith, any-append p xs ys)

  pub find_first-absent : (p : A → Bool) (xs : List A) → any p xs ≡ false → find_first p xs ≡ none
  unfolding any find_first
  find_first-absent p [] h = refl
  find_first-absent p (x ∷ xs) h = ground (arith, find_first-absent p xs)

  -- UPDATE … WHERE: the rows that pass the test are rewritten.
  unfoldable pub update_where : (A → Bool) → (A → A) → List A → List A
  update_where p f [] = []
  update_where p f (x ∷ xs) = (if p x then f x else x) ∷ update_where p f xs

  unfoldable pub insert_by : (A → A → Bool) → A → List A → List A
  insert_by le x [] = x ∷ []
  insert_by le x (y ∷ ys) = if le x y then x ∷ y ∷ ys else y ∷ insert_by le x ys

  -- ORDER BY, where rows that tie keep the order of the table.
  unfoldable pub sort_by : (A → A → Bool) → List A → List A
  unfolding insert_by
  sort_by le [] = []
  sort_by le (x ∷ xs) = insert_by le x (sort_by le xs)

  pub find_first-append :
      (p : A → Bool) (xs ys : List A)
      → find_first p (xs ++ ys)
        ≡ (if is_some (find_first p xs) then find_first p xs else find_first p ys)
  unfolding find_first
  find_first-append p [] ys = refl
  find_first-append p (x ∷ xs) ys = ground (arith, find_first-append p xs ys)

  pub find_first-update_where :
      (p q : A → Bool) (f : A → A) (xs : List A)
      → ((x : A) → p (f x) ≡ p x)
      → find_first p (update_where q f xs) ≡ opt_map (λ x. if q x then f x else x) (find_first p xs)
  unfolding find_first update_where
  find_first-update_where p q f [] keep = refl
  find_first-update_where p q f (x ∷ xs) keep =
      ground (arith, keep x, find_first-update_where p q f xs keep)

  pub find_first-select :
      (p q : A → Bool) (xs : List A)
      → ((x : A) → p x ≡ true → q x ≡ true)
      → find_first p (select q xs) ≡ find_first p xs
  unfolding find_first select
  find_first-select p q [] imp = refl
  find_first-select p q (x ∷ xs) imp = ground (arith, imp x, find_first-select p q xs imp)

  pub find_first-select-none :
      (p q : A → Bool) (xs : List A)
      → ((x : A) → p x ≡ true → q x ≡ false)
      → find_first p (select q xs) ≡ none
  unfolding find_first select
  find_first-select-none p q [] imp = refl
  find_first-select-none p q (x ∷ xs) imp = ground (arith, imp x, find_first-select-none p q xs imp)

  pub count-append : (p : A → Bool) (xs ys : List A) → count p (xs ++ ys) ≡ count p xs + count p ys
  unfolding count
  count-append p [] ys = omega arith
  count-append p (x ∷ xs) ys = ground (arith, count-append p xs ys)

  pub find_first-select-kept :
      (p q : A → Bool) (xs : List A) (x : A)
      → find_first p xs ≡ some x
      → q x ≡ true
      → find_first p (select q xs) ≡ some x
  unfolding find_first select
  find_first-select-kept p q [] x h k = absurd cc
  find_first-select-kept p q (y ∷ xs) x h k = ground (arith, find_first-select-kept p q xs x)

  pub find_first-select-absent :
      (p q : A → Bool) (xs : List A) → find_first p xs ≡ none → find_first p (select q xs) ≡ none
  unfolding find_first select
  find_first-select-absent p q [] h = refl
  find_first-select-absent p q (y ∷ xs) h = ground (arith, find_first-select-absent p q xs)

  count-none : (p : A → Bool) (xs : List A) → count p xs ≡ 0 → find_first p xs ≡ none
  unfolding find_first count
  count-none p [] h = refl
  count-none p (y ∷ xs) h = ground (arith, count-none p xs)

  -- The only element that passes a test is not found where the selection drops it.
  pub find_first-select-lost :
      (p q : A → Bool) (xs : List A) (x : A)
      → count p xs ≤ 1
      → find_first p xs ≡ some x
      → q x ≡ false
      → find_first p (select q xs) ≡ none
  unfolding find_first select count
  find_first-select-lost p q [] x one h k = refl
  find_first-select-lost p q (y ∷ xs) x one h k = elim (Bool-cases (p y)) [
    | inl e ↦
        let same_row : y ≡ x = ground arith in
        let dropped : q y ≡ false = rw same_row k in
        rw dropped (find_first-select-absent p q xs (count-none p xs (ground arith)))
    | inr e ↦ ground (arith, find_first-select-lost p q xs x)
  ]

  count_found :
      (p q : A → Bool) (xs : List A) (y : A)
      → find_first p xs ≡ some y
      → q y ≡ true
      → 1 ≤ count q xs
  unfolding find_first count
  count_found p q [] y h k = absurd cc
  count_found p q (x ∷ xs) y h k = ground (arith, count_found p q xs y)

  -- An element that is found by one test is found by another that it alone passes.
  pub find_first-other :
      (p q : A → Bool) (xs : List A) (y : A)
      → count q xs ≤ 1
      → find_first p xs ≡ some y
      → q y ≡ true
      → find_first q xs ≡ some y
  unfolding find_first count
  find_first-other p q [] y one h k = absurd cc
  find_first-other p q (x ∷ xs) y one h k =
      ground (arith, count_found p q xs y, find_first-other p q xs y)

  pub find_first-fails :
      (p q : A → Bool) (xs : List A) (y : A)
      → find_first p xs ≡ none
      → find_first q xs ≡ some y
      → p y ≡ false
  unfolding find_first
  find_first-fails p q [] y h k = absurd cc
  find_first-fails p q (x ∷ xs) y h k = ground (arith, find_first-fails p q xs y)

  pub count-select-le : (p q : A → Bool) (xs : List A) → count p (select q xs) ≤ count p xs
  unfolding count select
  count-select-le p q [] = omega arith
  count-select-le p q (x ∷ xs) = ground (arith, count-select-le p q xs)

  pub count-update_where :
      (p q : A → Bool) (f : A → A) (xs : List A)
      → ((x : A) → p (f x) ≡ p x)
      → count p (update_where q f xs) ≡ count p xs
  unfolding count update_where
  count-update_where p q f [] keep = refl
  count-update_where p q f (x ∷ xs) keep = ground (arith, keep x, count-update_where p q f xs keep)

  pub any-select-not : (p : A → Bool) (xs : List A) → any p (select (λ x. not (p x)) xs) ≡ false
  unfolding any select
  any-select-not p [] = refl
  any-select-not p (x ∷ xs) = ground (arith, any-select-not p xs)

  pub count-absent : (p : A → Bool) (xs : List A) → count p xs ≡ 0 → any p xs ≡ false
  unfolding count any
  count-absent p [] h = refl
  count-absent p (x ∷ xs) h = ground (arith, count-absent p xs)

  pub update_where-absent :
      (p : A → Bool) (f : A → A) (xs : List A) → any p xs ≡ false → update_where p f xs ≡ xs
  unfolding any update_where
  update_where-absent p f [] h = refl
  update_where-absent p f (x ∷ xs) h = ground (arith, update_where-absent p f xs)

  -- A count when the only row that passes the test is rewritten.
  pub count-update_one :
      (p q : A → Bool) (f : A → A) (xs : List A) (x : A)
      → find_first q xs ≡ some x
      → count q xs ≤ 1
      → count p (update_where q f xs) + (if p x then 1 else 0)
        ≡ count p xs + (if p (f x) then 1 else 0)
  unfolding count update_where find_first
  count-update_one p q f [] x h one = absurd cc
  count-update_one p q f (y ∷ xs) x h one = elim (Bool-cases (q y)) [
    | inl hit ↦
        let same_row : y ≡ x = ground arith in
        let rest : update_where q f xs ≡ xs =
          update_where-absent q f xs (count-absent q xs (ground arith)) in
        rw (hit, rest, same_row) (ground arith)
    | inr miss ↦
        let rest = count-update_one p q f xs x (ground arith) (ground arith) in
        rw miss (ground (arith, rest))
  ]

  -- What is found among the selected passes the test of the selection.
  pub find_first-selected :
      (p q : A → Bool) (xs : List A) (x : A) → find_first p (select q xs) ≡ some x → q x ≡ true
  unfolding find_first select
  find_first-selected p q [] x h = cc
  find_first-selected p q (y ∷ xs) x h = ground (arith, find_first-selected p q xs x)

  -- What is found passes the test.
  pub find_first_sound :
      (p : A → Bool) (xs : List A) (x : A) → find_first p xs ≡ some x → p x ≡ true
  unfolding find_first
  find_first_sound p [] x h = cc
  find_first_sound p (y ∷ ys) x h = ground (arith, find_first_sound p ys x)

module _ {ℓ κ} {A : Type ℓ} {B : Type κ} where
  -- The first row of a join.
  unfoldable pub first_some : (A → Option B) → List A → Option B
  first_some f [] = none
  first_some f (x ∷ xs) = elim (f x) [ none ↦ first_some f xs | some b ↦ some b ]

  unfoldable pub filter_map : (A → Option B) → List A → List B
  filter_map f [] = []
  filter_map f (x ∷ xs) = elim (f x) [ none ↦ filter_map f xs | some b ↦ b ∷ filter_map f xs ]

module _ {ℓ κ} {A : Type ℓ} (P : A → Type κ) where
  abbrev pub All : List A → Type κ
  All [] = Unit
  All (x ∷ xs) = P x × All xs
