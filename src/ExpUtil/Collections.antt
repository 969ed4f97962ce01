-- ===== src/ExpUtil/Collections.antt =====
-- exp-util.cc: sets, lists and maps. A std::set<std::string> is a list that ascends
-- lexicographically, a std::set<int64_t> one that ascends.
pub mod Sets
pub mod Operations
mod Tests
use hypatia_multicast.Base.{
  ℕ, ◌-◌, Bool, true, false, List, [], ◌∷◌, ◌++◌, map, Result, ok, ◌>>=◌, ◌>>◌, if◌then◌else◌, not,
  ◌&&◌, ◌||◌, for_each, ltb, ◌==◌, invalid_argument, undefined, throw_if, or_throw, length,
  get_elem?, insert_set,
}
use hypatia_multicast.ExpUtil.Text.{
  Text, is_empty, trim, text_eq, starts_with, ends_with, substr, split_string,
  split_string_expecting,
}
use hypatia_multicast.ExpUtil.Numbers.{parse_positive_int64}

unfoldable pub text_lt : Text → Text → Bool
text_lt [] [] = false
text_lt [] (d ∷ t) = true
text_lt (c ∷ s) [] = false
text_lt (c ∷ s) (d ∷ t) = ltb c d || ((c == d) && text_lt s t)

unfoldable pub insert_text : Text → List Text → List Text
unfolding text_lt text_eq
insert_text s [] = s ∷ []
insert_text s (t ∷ ts) =
    if text_lt s t then s ∷ t ∷ ts else if text_eq s t then t ∷ ts else t ∷ insert_text s ts

-- "set(" and ")".
abbrev pub set_open : Text
set_open = b's' ∷ b'e' ∷ b't' ∷ b'(' ∷ []

abbrev pub list_open : Text
list_open = b'l' ∷ b'i' ∷ b's' ∷ b't' ∷ b'(' ∷ []

abbrev pub map_open : Text
map_open = b'm' ∷ b'a' ∷ b'p' ∷ b'(' ∷ []

abbrev pub close : Text
close = b')' ∷ []

-- The loop that inserts the trimmed items.
unfoldable pub insert_all : List Text → List Text → List Text
unfolding insert_text
insert_all [] final_set = final_set
insert_all (s ∷ ss) final_set = insert_all ss (insert_text (trim s) final_set)

unfoldable pub parse_set_string : Text → Result (List Text)
unfolding starts_with ends_with trim split_string insert_all
parse_set_string str = do
  throw_if (not (starts_with str set_open) || not (ends_with str close)) invalid_argument
  let only_inside = substr 4 (length str - 5) str
  if is_empty (trim only_inside) then ok [] else (do
    final ← split_string only_inside (b',' ∷ [])
    let final_set = insert_all final []
    throw_if (not (length final == length final_set)) invalid_argument
    ok final_set)

unfoldable pub parse_set_positive_int64 : Text → Result (List ℕ)
unfolding parse_set_string for_each insert_set parse_positive_int64
parse_set_positive_int64 str = do
  string_set ← parse_set_string str
  int64_set ←
      for_each (λ found s. parse_positive_int64 s >>= λ n. ok (insert_set n found)) [] string_set
  throw_if (not (length string_set == length int64_set)) invalid_argument
  ok int64_set

unfoldable pub parse_list_string : Text → Result (List Text)
unfolding starts_with ends_with trim split_string
parse_list_string str = do
  throw_if (not (starts_with str list_open) || not (ends_with str close)) invalid_argument
  let only_inside = substr 5 (length str - 6) str
  if is_empty (trim only_inside)
      then ok []
      else (do prelim_list ← split_string only_inside (b',' ∷ []); ok (map trim prelim_list))

unfoldable pub parse_list_positive_int64 : Text → Result (List ℕ)
unfolding parse_list_string for_each parse_positive_int64
parse_list_positive_int64 str = do
  string_list ← parse_list_string str
  for_each (λ found s. parse_positive_int64 s >>= λ n. ok (found ++ n ∷ [])) [] string_list

-- One entry of a map: the pairs so far, and the set of their keys.
unfoldable pub parse_entry :
    List (Text × Text) × List Text → Text → Result (List (Text × Text) × List Text)
unfolding split_string_expecting trim insert_text
parse_entry (result, key_set) s = do
  colon_split_list ← split_string_expecting s (b':' ∷ []) 2
  key ← or_throw (get_elem? colon_split_list 0) undefined
  value ← or_throw (get_elem? colon_split_list 1) undefined
  let result' = result ++ (trim key, trim value) ∷ []
  let key_set' = insert_text (trim key) key_set
  throw_if (not (length result' == length key_set')) invalid_argument
  ok (result', key_set')

unfoldable pub parse_map_string : Text → Result (List (Text × Text))
unfolding starts_with ends_with trim split_string parse_entry for_each
parse_map_string str = do
  throw_if (not (starts_with str map_open) || not (ends_with str close)) invalid_argument
  let only_inside = substr 4 (length str - 5) str
  if is_empty (trim only_inside) then ok [] else (do
    comma_split_list ← split_string only_inside (b',' ∷ [])
    (result, key_set) ← for_each parse_entry ([], []) comma_split_list
    ok result)

unfoldable pub all_items_are_less_than : List ℕ → ℕ → Result (Unit {0})
all_items_are_less_than [] number = ok tt
all_items_are_less_than (val ∷ s) number = do
  throw_if (not (ltb val number)) invalid_argument
  all_items_are_less_than s number

-- std::set_intersection and std::set_union of two ascending sequences.
unfoldable pub direct_set_intersection : List ℕ → List ℕ → List ℕ
direct_set_intersection [] ys = []
direct_set_intersection (x ∷ xs) [] = []
direct_set_intersection (x ∷ xs) (y ∷ ys) = elim (ltb x y) [
  | true ↦ direct_set_intersection xs (y ∷ ys)
  | false ↦ elim (ltb y x) [
    | true ↦ direct_set_intersection (x ∷ xs) ys
    | false ↦ x ∷ direct_set_intersection xs ys
  ]
]

unfoldable pub direct_set_union : List ℕ → List ℕ → List ℕ
direct_set_union [] ys = ys
direct_set_union (x ∷ xs) [] = x ∷ xs
direct_set_union (x ∷ xs) (y ∷ ys) = elim (ltb x y) [
  | true ↦ x ∷ direct_set_union xs (y ∷ ys)
  | false ↦ elim (ltb y x) [
    | true ↦ y ∷ direct_set_union (x ∷ xs) ys
    | false ↦ x ∷ direct_set_union xs ys
  ]
]
