-- ===== src/Base/Loops.antt =====
-- Counted loops `for (i = 0; i < n; i++)`, and reads of a vector.
use Prim.Native.Nat.{ℕ, zero, suc, ◌+◌, ◌<◌}
use mathlib.Core.Path.{◌≡◌, subst}
use mathlib.Core.Logic.{◌⊎◌}
use mathlib.Core.List.{List, [], ◌∷◌}
use native.Mathlib.Omega.{arith}
use hypatia_multicast.Base.Tests.{◌==◌, if◌then◌else◌}
use hypatia_multicast.Base.Lists.{get_or, set, length}

-- `left` rounds from `i` on.
unfoldable pub count_up {ℓ} : {S : Type ℓ} → ℕ → ℕ → (ℕ → S → S) → S → S
count_up zero i body s = s
count_up (suc left) i body s = count_up left (suc i) body (body i s)

pub count_up-inv {ℓ κ} :
    {S : Type ℓ} (P : ℕ → S → Type κ) (n : ℕ) (body : ℕ → S → S)
    → ((i : ℕ) (s : S) → i < n → P i s → P (suc i) (body i s))
    → (left i : ℕ) (s : S) → left + i ≡ n
    → P i s
    → P n (count_up left i body s)
unfolding count_up
count_up-inv P n body keep zero i s e h = subst (λ k. P k s) (omega arith) h
count_up-inv P n body keep (suc left) i s e h =
    count_up-inv P n body keep left (suc i) (body i s) (omega arith) (keep i s (omega arith) h)

pub get_or-set {ℓ} :
    {A : Type ℓ} (xs : List A) (i j : ℕ) (v d : A)
    → i < length xs
    → get_or (set xs i v) j d ≡ (if i == j then v else get_or xs j d)
get_or-set [] i j v d h = elim h [ ]
get_or-set (x ∷ xs) zero zero v d h = ground arith
get_or-set (x ∷ xs) zero (suc j) v d h = ground arith
get_or-set (x ∷ xs) (suc i) zero v d h = ground arith
get_or-set (x ∷ xs) (suc i) (suc j) v d h =
    subst (λ b. get_or (set xs i v) j d ≡ (if b then v else get_or xs j d)) (same i j)
      (get_or-set xs i j v d (omega arith))
  where
    same : (i j : ℕ) → (i == j) ≡ (suc i == suc j)
    same i j = ground arith

-- `x` is an item of the list.
abbrev pub In : {A : Type 0} → A → List A → Type 0
In x [] = ⊥
In x (y ∷ ys) = (x ≡ y) ⊎ In x ys
