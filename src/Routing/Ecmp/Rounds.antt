-- ===== src/Routing/Ecmp/Rounds.antt =====
-- The loops of arbiter-ecmp-helper.cc over the distance matrix, in place, against one matrix made
-- from another.
use hypatia_multicast.Base.{
  ℕ, suc, ◌+◌, ◌*◌, ◌<◌, ◌≡◌, refl, ap, ◌∙◌, Bool, List, if◌then◌else◌, ◌&&◌, ◌||◌, arith, ltb,
  ◌==◌, Bool-cases, inl, inr, length, replicate, length-replicate, count_up, count_up-inv,
}
use hypatia_multicast.Routing.Ecmp.{
  infinite, dist_at, set_dist, init_dist, relax, relax_row, relax_all,
}
use hypatia_multicast.Routing.Ecmp.Matrix.{length-set_dist, dist_at-set_dist}

abbrev pub Matrix : Type 0
Matrix = ℕ → ℕ → ℕ

-- The array has n * n cells, which hold the matrix.
pub record Holds (n : ℕ) (f : Matrix) (dist : List ℕ) : Type 0 where
  pub sized : length dist ≡ n * n
  pub cell : (i j : ℕ) → i < n → j < n → dist_at n dist i j ≡ f i j

pub Holds-of_agree :
    (n : ℕ) (f g : Matrix) (dist : List ℕ)
    → ((i j : ℕ) → i < n → j < n → f i j ≡ g i j)
    → Holds n f dist
    → Holds n g dist
Holds-of_agree n f g dist agree h = record {
  sized = h.sized;
  cell = λ i j hi hj. h.cell i j hi hj ∙ agree i j hi hj;
}

-- One write.
pub Holds-set_dist :
    (n : ℕ) (f : Matrix) (a b v : ℕ) (dist : List ℕ)
    → a < n
    → b < n
    → Holds n f dist
    → Holds n (λ i j. if (a == i) && (b == j) then v else f i j) (set_dist n a b v dist)
Holds-set_dist n f a b v dist ha hb h = record {
  sized = length-set_dist n a b v dist ∙ h.sized;
  cell = λ i j hi hj.
      dist_at-set_dist n a b i j v dist h.sized ha hb hj
      ∙ ap (λ d. if (a == i) && (b == j) then v else d) (h.cell i j hi hj);
}

-- The loops have passed cell (x, y) when they are at cell (i, j).
abbrev passed : ℕ → ℕ → ℕ → ℕ → Bool
passed i j x y = ltb x i || ((x == i) && ltb y j)

abbrev mixed : ℕ → ℕ → Matrix → Matrix → Matrix
mixed i j f g x y = if passed i j x y then g x y else f x y

-- Two nested loops turn one matrix into another, if each round does so with its cell.
sweep :
    (n : ℕ) (f g : Matrix) (body : ℕ → ℕ → List ℕ → List ℕ)
    → ((i j : ℕ) (dist : List ℕ)
        → i < n
        → j < n
        → Holds n (mixed i j f g) dist
        → Holds n (mixed i (suc j) f g) (body i j dist))
    → (dist : List ℕ) → Holds n f dist
    → Holds n g (count_up n 0 (λ i. count_up n 0 (body i)) dist)
sweep n f g body step dist h =
    Holds-of_agree n (mixed n 0 f g) g _ (λ i j hi hj. ground arith)
      (count_up-inv (λ i. Holds n (mixed i 0 f g)) n (λ i. count_up n 0 (body i)) row n 0 dist
        (omega arith) (Holds-of_agree n f (mixed 0 0 f g) dist (λ i j hi hj. ground arith) h))
  where
    row :
        (i : ℕ) (d : List ℕ)
        → i < n
        → Holds n (mixed i 0 f g) d
        → Holds n (mixed (suc i) 0 f g) (count_up n 0 (body i) d)
    row i d hi hd =
        Holds-of_agree n (mixed i n f g) (mixed (suc i) 0 f g) _ (λ x y hx hy. ground arith)
          (count_up-inv (λ j. Holds n (mixed i j f g)) n (body i) (λ j e hj. step i j e hi hj) n 0 d
            (omega arith) hd)

-- No distance but to itself.
abbrev pub no_edges : Matrix
no_edges i j = if i == j then 0 else infinite

pub init_dist-Holds : (n : ℕ) → Holds n no_edges (init_dist n)
unfolding init_dist
init_dist-Holds n =
    sweep n (λ i j. dist_at n (replicate (n * n) 0) i j) no_edges
      (λ i j. set_dist n i j (if i == j then 0 else infinite))
      (λ i j dist hi hj h.
        Holds-of_agree n _ (mixed i (suc j) _ no_edges) _ (λ x y hx hy. ground arith)
          (Holds-set_dist n _ i j (if i == j then 0 else infinite) dist hi hj h))
      (replicate (n * n) 0)
      (record { sized = length-replicate (n * n) 0; cell = λ i j hi hj. refl })

-- The matrix after the round for `k`.
abbrev pub through : ℕ → Matrix → Matrix
through k f i j = if ltb (f i k + f k j) (f i j) then f i k + f k j else f i j

relax-Holds :
    (n k : ℕ) (f : Matrix) (i j : ℕ) (dist : List ℕ)
    → k < n
    → f k k ≡ 0
    → i < n
    → j < n
    → Holds n (mixed i j f (through k f)) dist
    → Holds n (mixed i (suc j) f (through k f)) (relax n k i j dist)
unfolding relax
relax-Holds n k f i j dist hk zero_k hi hj h =
    let ik : dist_at n dist i k ≡ f i k = h.cell i k hi hk ∙ ground arith in
    let kj : dist_at n dist k j ≡ f k j = h.cell k j hk hj ∙ ground arith in
    let ij : dist_at n dist i j ≡ f i j = h.cell i j hi hj ∙ ground arith in
    rw (ik, kj, ij)
      (elim (Bool-cases (ltb (f i k + f k j) (f i j))) [
        | inl less ↦ rw less (
            Holds-of_agree n _ (mixed i (suc j) f (through k f)) _ (λ x y hx hy. ground arith)
              (Holds-set_dist n _ i j (f i k + f k j) dist hi hj h))
        | inr enough ↦ rw enough (
            Holds-of_agree n _ (mixed i (suc j) f (through k f)) dist (λ x y hx hy. ground arith) h)
      ])

-- The loops for one `k` read only cells that they do not change, so they do the round at once.
pub relax_all-Holds :
    (n k : ℕ) (f : Matrix) (dist : List ℕ)
    → k < n
    → f k k ≡ 0
    → Holds n f dist
    → Holds n (through k f) (relax_all n k dist)
unfolding relax_all relax_row
relax_all-Holds n k f dist hk zero_k h =
    sweep n f (through k f) (λ i j. relax n k i j)
      (λ i j d hi hj hd. relax-Holds n k f i j d hk zero_k hi hj hd) dist h
