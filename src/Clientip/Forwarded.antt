-- ===== src/Clientip/Forwarded.antt =====
-- Which address ResolveClientIP takes from the headers.
use dcalcon.Base.{
  ℕ, Bool, true, false, Option, some, is_some, List, [], ◌∷◌, ◌++◌, Text, same, contains_rune,
  cons_head, split, trim_space, ◌==◌, ◌≡◌, refl, arith, Bool-cases, inl, inr,
}
use dcalcon.Clientip.{Request, remote_ip, trusted_ip, last_ip, resolve_client_ip}

module _ {Ip : Type 0} (host_of : Text → Option Text) (parse_ip : Text → Option Ip)
    (is_loopback : Ip → Bool) where
  abbrev last : List Text → Option Text
  last = last_ip host_of parse_ip is_loopback

  abbrev tail : List Text → List Text
  tail [] = []
  tail (p ∷ ps) = ps

  split-single : (sep : ℕ) (s : Text) → contains_rune s sep ≡ false → split sep s ≡ s ∷ []
  unfolding split cons_head contains_rune
  split-single sep [] h = refl
  split-single sep (c ∷ s) h = ground (arith, split-single sep s)

  tail-cons_head :
      (c : ℕ) (ps : List Text) (ip : Text)
      → last (tail ps) ≡ some ip
      → last (tail (cons_head c ps)) ≡ some ip
  unfolding cons_head last_ip
  tail-cons_head c [] ip h = cc
  tail-cons_head c (p ∷ ps) ip h = h

  last-tail : (ps : List Text) (ip : Text) → last (tail ps) ≡ some ip → last ps ≡ some ip
  unfolding last_ip
  last-tail [] ip h = h
  last-tail (p ∷ ps) ip h = rw (h, last_ip) refl

  last-single :
      (ip : Text)
      → is_some (parse_ip (trim_space ip)) ≡ true
      → last (ip ∷ []) ≡ some (trim_space ip)
  unfolding last_ip
  last-single ip h = ground (arith, h)

  last-split :
      (before ip : Text)
      → contains_rune ip b',' ≡ false
      → is_some (parse_ip (trim_space ip)) ≡ true
      → last (tail (split b',' (before ++ b',' ∷ ip))) ≡ some (trim_space ip)
  unfolding split
  last-split [] ip no_comma h = rw (split-single b',' ip no_comma) (last-single ip h)
  last-split (c ∷ before) ip no_comma h = elim (Bool-cases (c == b',')) [
    | inl comma ↦
        rw comma (last-tail (split b',' (before ++ b',' ∷ ip)) _ (last-split before ip no_comma h))
    | inr other ↦
        rw other
          (tail-cons_head c (split b',' (before ++ b',' ∷ ip)) _ (last-split before ip no_comma h))
  ]

  not_empty : (before ip : Text) → same (before ++ b',' ∷ ip) [] ≡ false
  unfolding same
  not_empty [] ip = refl
  not_empty (c ∷ before) ip = refl

  -- Behind a trusted peer, if the part of X-Forwarded-For after its last comma is an IP address but
  -- for white space, that address is the one that is taken, whatever stands before it and in
  -- X-Real-IP.
  pub resolve_client_ip-nearest :
      (r : Request) (trusted : List (Ip → Bool)) (before ip : Text)
      → trusted_ip host_of parse_ip is_loopback (remote_ip host_of parse_ip is_loopback r) trusted
        ≡ true
      → r.forwarded_for ≡ before ++ b',' ∷ ip
      → contains_rune ip b',' ≡ false
      → is_some (parse_ip (trim_space ip)) ≡ true
      → resolve_client_ip host_of parse_ip is_loopback r trusted ≡ trim_space ip
  unfolding resolve_client_ip
  resolve_client_ip-nearest r trusted before ip peer header no_comma h =
      let found =
        last-tail (split b',' (before ++ b',' ∷ ip)) _ (last-split before ip no_comma h) in
      rw (peer, header, not_empty before ip, found, resolve_client_ip) refl
