-- ===== src/ExpUtil/Collections/Tests.antt =====
-- Values from the documentation of exp-util.cc.
use Prim.Native.Char.{code}
use Prim.Native.String.{String}
use hypatia_multicast.Base.{
  ℕ, List, [], ◌∷◌, ◌≡◌, refl, ok, err, invalid_argument, ◌↔◌, ◌⊎◌, In, Ascends, ltb,
}
use hypatia_multicast.ExpUtil.Collections.{
  parse_set_positive_int64, parse_list_positive_int64, parse_map_string, direct_set_intersection,
  direct_set_union,
}
use hypatia_multicast.ExpUtil.Collections.Sets.{parse_set_positive_int64-Ascends}
use hypatia_multicast.ExpUtil.Collections.Operations.{direct_sets-Ascends}

abbrev codes : String → List ℕ
codes String.[] = []
codes (String.◌∷◌ c s) = code c ∷ codes s

set_of_three : parse_set_positive_int64 (codes "set(5, 3,12)") ≡ ok (3 ∷ 5 ∷ 12 ∷ [])
unfolding parse_set_positive_int64
set_of_three = refl

set_with_duplicate : parse_set_positive_int64 (codes "set(5,3, 5)") ≡ err invalid_argument
unfolding parse_set_positive_int64
set_with_duplicate = refl

list_of_three : parse_list_positive_int64 (codes "list(7,7, 1 )") ≡ ok (7 ∷ 7 ∷ 1 ∷ [])
unfolding parse_list_positive_int64
list_of_three = refl

map_of_two :
    parse_map_string (codes "map(a:b, c:d)")
    ≡ ok ((codes "a", codes "b") ∷ (codes "c", codes "d") ∷ [])
unfolding parse_map_string
map_of_two = refl

odd_set-read : parse_set_positive_int64 (codes "set(1,3,5)") ≡ ok (1 ∷ 3 ∷ 5 ∷ [])
unfolding parse_set_positive_int64
odd_set-read = refl

small_set-read : parse_set_positive_int64 (codes "set(2,3)") ≡ ok (2 ∷ 3 ∷ [])
unfolding parse_set_positive_int64
small_set-read = refl

direct_sets-Ascends_example :
    Ascends ltb (direct_set_intersection (1 ∷ 3 ∷ 5 ∷ []) (2 ∷ 3 ∷ []))
    × Ascends ltb (direct_set_union (1 ∷ 3 ∷ 5 ∷ []) (2 ∷ 3 ∷ []))
    × ((z : ℕ)
        → In z (direct_set_intersection (1 ∷ 3 ∷ 5 ∷ []) (2 ∷ 3 ∷ []))
          ↔ (In z (1 ∷ 3 ∷ 5 ∷ []) × In z (2 ∷ 3 ∷ [])))
    × ((z : ℕ)
        → In z (direct_set_union (1 ∷ 3 ∷ 5 ∷ []) (2 ∷ 3 ∷ []))
          ↔ (In z (1 ∷ 3 ∷ 5 ∷ []) ⊎ In z (2 ∷ 3 ∷ [])))
direct_sets-Ascends_example =
    direct_sets-Ascends (1 ∷ 3 ∷ 5 ∷ []) (2 ∷ 3 ∷ [])
      ((parse_set_positive_int64-Ascends (codes "set(1,3,5)")).holds (1 ∷ 3 ∷ 5 ∷ []) odd_set-read)
      ((parse_set_positive_int64-Ascends (codes "set(2,3)")).holds (2 ∷ 3 ∷ []) small_set-read)
