-- ===== src/Base/Maps.antt =====
-- std::map as an association list that is read through `find`, and std::set<uint32_t> and
-- std::set<int64_t> as ascending lists.
use Prim.Native.Nat.{ℕ}
use mathlib.Core.Path.{◌≡◌, refl}
use mathlib.Core.Logic.{◌⊎◌, inl}
use mathlib.Core.Option.{Option, none, some}
use mathlib.Core.List.{List, [], ◌∷◌}
use native.Mathlib.Omega.{arith}
use hypatia_multicast.Base.Tests.{ltb, ◌==◌, if◌then◌else◌}
use hypatia_multicast.Base.Loops.{In}

module _ {V : Type 0} where
  unfoldable pub find : ℕ → List (ℕ × V) → Option V
  find k [] = none
  find k ((j, v) ∷ m) = if j == k then some v else find k m

  unfoldable pub put : ℕ → V → List (ℕ × V) → List (ℕ × V)
  put k v [] = (k, v) ∷ []
  put k v ((j, w) ∷ m) = if j == k then (k, v) ∷ m else (j, w) ∷ put k v m

  -- What `operator[]` reads, with the value of a missing key.
  unfoldable pub find_or : ℕ → V → List (ℕ × V) → V
  unfolding find
  find_or k d m = elim (find k m) [ some v ↦ v | none ↦ d ]

  pub find-put :
      (k j : ℕ) (v : V) (m : List (ℕ × V))
      → find j (put k v m) ≡ (if k == j then some v else find j m)
  unfolding find put
  find-put k j v [] = ground arith
  find-put k j v ((i, w) ∷ m) = ground (arith, find-put k j v m)

  pub find_or-put :
      (k j : ℕ) (v d : V) (m : List (ℕ × V))
      → find_or j d (put k v m) ≡ (if k == j then v else find_or j d m)
  unfolding find_or
  find_or-put k j v d m = ground (arith, find-put k j v m)

  pub find_or-some :
      (k : ℕ) (d : V) (m : List (ℕ × V)) {v : V} → find k m ≡ some v → find_or k d m ≡ v
  unfolding find_or
  find_or-some k d m e = rw (e, find_or)

  pub find_or-none : (k : ℕ) (d : V) (m : List (ℕ × V)) → find k m ≡ none → find_or k d m ≡ d
  unfolding find_or
  find_or-none k d m e = rw (e, find_or)

unfoldable pub insert_set : ℕ → List ℕ → List ℕ
insert_set x [] = x ∷ []
insert_set x (y ∷ ys) =
    if ltb x y then x ∷ y ∷ ys else if x == y then y ∷ ys else y ∷ insert_set x ys

pub In-insert_set_self : (x : ℕ) (ys : List ℕ) → In x (insert_set x ys)
unfolding insert_set
In-insert_set_self x [] = inl refl
In-insert_set_self x (y ∷ ys) = ground (arith, In-insert_set_self x ys)

pub In-insert_set : (x z : ℕ) (ys : List ℕ) → In z ys → In z (insert_set x ys)
unfolding insert_set
In-insert_set x z [] m = absurd m
In-insert_set x z (y ∷ ys) m = ground (arith, In-insert_set x z ys)

pub insert_set-In : (x z : ℕ) (ys : List ℕ) → In z (insert_set x ys) → (z ≡ x) ⊎ In z ys
unfolding insert_set
insert_set-In x z [] m = ground arith
insert_set-In x z (y ∷ ys) m = ground (arith, insert_set-In x z ys)
