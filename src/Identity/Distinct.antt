-- ===== src/Identity/Distinct.antt =====
-- Identities of src/svc/internal/schedule/identity.go, up to case.
use dcalcon.Base.{
  ℕ, ◌+◌, ◌≤◌, true, false, List, [], ◌∷◌, ◌++◌, Text, same_iff, any, count, trim_space, to_lower,
  equal_fold, if◌then◌else◌, ◌≡◌, arith,
}
use dcalcon.Storage.{User}
use dcalcon.Identity.{add_identity, identities}

module _ (folding : ℕ → ℕ) where
  -- How many of some texts EqualFold a text.
  unfoldable pub alike : Text → List Text → ℕ
  alike t = count (λ e. equal_fold folding e t)

  alike-append :
      (t : Text) (out : List Text) (s : Text)
      → alike t (out ++ s ∷ []) ≡ alike t out + (if equal_fold folding s t then 1 else 0)
  unfolding alike count
  alike-append t [] s = ground arith
  alike-append t (e ∷ out) s = ground (arith, alike-append t out s)

  alike-none :
      (t s : Text) (out : List Text)
      → any (λ e. equal_fold folding e s) out ≡ false
      → equal_fold folding s t ≡ true
      → alike t out ≤ 0
  unfolding alike count any equal_fold
  alike-none t s [] h k = omega arith
  alike-none t s (e ∷ out) h k = ground (
    arith,
    alike-none t s out,
    same_iff (to_lower folding s) (to_lower folding t),
    same_iff (to_lower folding e) (to_lower folding t),
    same_iff (to_lower folding e) (to_lower folding s),
  )

  alike-add_identity :
      (t text : Text) (out : List Text)
      → alike t out ≤ 1
      → alike t (add_identity folding text out) ≤ 1
  unfolding add_identity
  alike-add_identity t text out h =
      let s = trim_space text in ground (arith, h, alike-append t out s, alike-none t s out)

  -- Identities lists no two addresses that are equal under case folding.
  pub identities-distinct :
      (table : ℕ → ℕ) (domain : Text) (u : User) (t : Text)
      → alike t (identities folding table domain u) ≤ 1
  unfolding identities
  identities-distinct table domain u t =
      alike-add_identity t _ _ (alike-add_identity t _ _ (alike-add_identity t _ [] none_yet))
    where
      none_yet : alike t [] ≤ 1
      none_yet = unfold alike count in omega arith
