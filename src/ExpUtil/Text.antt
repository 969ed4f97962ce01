-- ===== src/ExpUtil/Text.antt =====
-- exp-util.cc: trimming, prefixes and suffixes, and splitting.
pub mod Split
mod Tests
use mathlib.Core.Option
use hypatia_multicast.Base.{
  ℕ, zero, suc, ◌+◌, ◌-◌, Bool, true, false, List, [], ◌∷◌, ◌++◌, Option, some, none, Result, ok,
  err, ◌>>=◌, ◌>>◌, if◌then◌else◌, not, ◌&&◌, ◌||◌, leb, ◌==◌, invalid_argument, out_of_fuel,
  throw_if, length, take, drop,
}

-- A std::string, by its bytes.
abbrev pub Text : Type 0
Text = List ℕ

-- " \t\n\r\f\v", which are also the characters that isspace accepts.
unfoldable pub is_space : ℕ → Bool
is_space c = (c == 32) || (c == 9) || (c == 10) || (c == 13) || (c == 12) || (c == 11)

abbrev pub is_empty : {A : Type 0} → List A → Bool
is_empty [] = true
is_empty (x ∷ xs) = false

unfoldable pub right_trim : Text → Text
right_trim [] = []
right_trim (c ∷ s) = let rest = right_trim s in if is_empty rest && is_space c then [] else c ∷ rest

unfoldable pub left_trim : Text → Text
left_trim [] = []
left_trim (c ∷ s) = let rest = left_trim s in if is_space c then rest else c ∷ s

unfoldable pub trim : Text → Text
unfolding left_trim right_trim is_space
trim s = left_trim (right_trim s)

unfoldable pub text_eq : Text → Text → Bool
text_eq [] [] = true
text_eq [] (d ∷ t) = false
text_eq (c ∷ s) [] = false
text_eq (c ∷ s) (d ∷ t) = (c == d) && text_eq s t

unfoldable pub starts_with : Text → Text → Bool
starts_with s [] = true
starts_with [] (d ∷ p) = false
starts_with (c ∷ s) (d ∷ p) = (c == d) && starts_with s p

unfoldable pub ends_with : Text → Text → Bool
unfolding text_eq
ends_with str suffix =
    leb (length suffix) (length str) && text_eq (drop (length str - length suffix) str) suffix

-- str.substr(from, count).
abbrev pub substr : ℕ → ℕ → Text → Text
substr from count s = take count (drop from s)

unfoldable pub remove_start_end_double_quote_if_present : Text → Text
unfolding starts_with ends_with
remove_start_end_double_quote_if_present s =
    if leb 2 (length s) && starts_with s (34 ∷ []) && ends_with s (34 ∷ [])
    then substr 1 (length s - 2) s
    else s

-- remainder.find(delimiter).
unfoldable pub find_text : Text → Text → Option ℕ
unfolding starts_with
find_text d [] = if starts_with [] d then some 0 else none
find_text d (c ∷ s) =
    let later = Option.map suc (find_text d s) in if starts_with (c ∷ s) d then some 0 else later

-- The `while` loop of `split_string`, on fuel.
unfoldable pub split_loop : ℕ → Text → Text → List Text → Result (List Text)
split_loop zero d remainder result = err out_of_fuel
split_loop (suc fuel) d remainder result = elim (find_text d remainder) [
  | none ↦ ok (result ++ remainder ∷ [])
  | some idx ↦
      split_loop fuel d (drop (idx + length d) remainder) (result ++ take idx remainder ∷ [])
]

-- Each round takes the delimiter off the remainder. (With an empty one the source does not return.)
unfoldable pub split_string : Text → Text → Result (List Text)
unfolding split_loop find_text
split_string line delimiter = split_loop (suc (length line)) delimiter line []

unfoldable pub split_string_expecting : Text → Text → ℕ → Result (List Text)
unfolding split_string
split_string_expecting line delimiter expected = do
  the_split ← split_string line delimiter
  throw_if (not (length the_split == expected)) invalid_argument
  ok the_split
