-- ===== src/ExpUtil/Text/Tests.antt =====
-- Splitting small lines.
use hypatia_multicast.Base.{◌≡◌, refl, List, [], ◌∷◌, ok}
use hypatia_multicast.ExpUtil.Text.{Text, split_string}
use hypatia_multicast.ExpUtil.Text.Split.{IsSplit, split_string-IsSplit}

-- "a->b--" at "->".
abbrev arrows : Text
arrows = b'a' ∷ b'-' ∷ b'>' ∷ b'b' ∷ b'-' ∷ b'-' ∷ []

split_at_arrow :
    split_string arrows (b'-' ∷ b'>' ∷ []) ≡ ok ((b'a' ∷ []) ∷ (b'b' ∷ b'-' ∷ b'-' ∷ []) ∷ [])
unfolding split_string
split_at_arrow = refl

split_string-IsSplit_example :
    (parts : List Text) × (split_string arrows (b'-' ∷ b'>' ∷ []) ≡ ok parts)
    × IsSplit (b'-' ∷ b'>' ∷ []) arrows parts
split_string-IsSplit_example = split_string-IsSplit arrows (b'-') (b'>' ∷ [])
