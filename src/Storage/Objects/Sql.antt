-- ===== src/Storage/Objects/Sql.antt =====
-- SQLite's LIKE: `%` is any text, `_` any character, and ASCII letters match in either case.
use dcalcon.Base.{
  ℕ, Bool, true, false, ◌&&◌, ◌||◌, [], ◌∷◌, ◌++◌, Text, lower_rune, ◌==◌, if◌then◌else◌,
}

unfoldable pub on_suffix : (Text → Bool) → Text → Bool
on_suffix f [] = f []
on_suffix f (c ∷ s) = f (c ∷ s) || on_suffix f s

unfoldable pub on_head : ℕ → (Text → Bool) → Text → Bool
on_head p f [] = false
on_head p f (c ∷ s) = (p == b'_' || lower_rune (λ x. x) p == lower_rune (λ x. x) c) && f s

unfoldable pub like : Text → Text → Bool
unfolding on_suffix on_head lower_rune
like [] [] = true
like [] (c ∷ s) = false
like (p ∷ pattern_) s =
    let rest = like pattern_ in if p == b'%' then on_suffix rest s else on_head p rest s

-- href LIKE prefix || '%'
unfoldable pub like_prefix : Text → Text → Bool
unfolding like
like_prefix prefix s = like (prefix ++ b'%' ∷ []) s
