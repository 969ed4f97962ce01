-- ===== src/Routing/Ecmp/Tables.antt =====
-- The table of candidate lists in arbiter-ecmp-helper.cc, and what each loop adds to its lists.
use mathlib.Core.List.{append_assoc, append-nil}
use hypatia_multicast.Base.{
  ℕ, zero, suc, ◌+◌, ◌<◌, ◌≡◌, refl, sym, ap, subst, ◌∙◌, Bool, true, false, List, [], ◌∷◌, ◌++◌,
  if◌then◌else◌, ◌&&◌, arith, ltb, ◌==◌, Bool-cases, inl, inr, length, set, get_or, length-set,
  replicate, length-replicate, lt→ltb, ==_iff, count_up-inv, get_or-set,
}
use hypatia_multicast.Routing.Ecmp.{
  Edge, dist_at, CandidateList, candidates_at, push_candidate, add_candidates, edge_candidates,
  all_candidates,
}
use hypatia_multicast.Routing.Ecmp.Rounds.{Matrix}
use hypatia_multicast.Routing.Ecmp.Shortest.{IsWithin}

abbrev pub Lists : Type 0
Lists = ℕ → ℕ → List ℕ

-- An n by n table, and its lists.
pub record ListsAre (n : ℕ) (h : Lists) (g : CandidateList) : Type 0 where
  pub rows : length g ≡ n
  pub columns : (i : ℕ) → i < n → length (get_or g i []) ≡ n
  pub cell : (i j : ℕ) → i < n → j < n → candidates_at g i j ≡ h i j

ListsAre-of_agree :
    (n : ℕ) (h h' : Lists) (g : CandidateList)
    → ((i j : ℕ) → i < n → j < n → h i j ≡ h' i j)
    → ListsAre n h g
    → ListsAre n h' g
ListsAre-of_agree n h h' g agree v = record {
  rows = v.rows;
  columns = v.columns;
  cell = λ i j hi hj. v.cell i j hi hj ∙ agree i j hi hj;
}

push_candidate-ListsAre :
    (n : ℕ) (h : Lists) (a b c : ℕ) (g : CandidateList)
    → a < n
    → b < n
    → ListsAre n h g
    → ListsAre n
        (λ i j. if (a == i) && (b == j) then h i j ++ c ∷ [] else h i j)
        (push_candidate a b c g)
unfolding push_candidate candidates_at
push_candidate-ListsAre n h a b c g ha hb v = record {
  rows = length-set g a _ ∙ v.rows;
  columns = λ i hi. ap length (read i) ∙ elim (Bool-cases (a == i)) [
    | inl same ↦ rw same (length-set _ b _ ∙ v.columns a ha)
    | inr other ↦ rw other (v.columns i hi)
  ];
  cell = new_cell;
}
  where
    new_row : List (List ℕ)
    new_row = set (get_or g a []) b (get_or (get_or g a []) b [] ++ c ∷ [])

    read : (i : ℕ) → get_or (set g a new_row) i [] ≡ (if a == i then new_row else get_or g i [])
    read i = get_or-set g a i new_row [] (omega (arith, v.rows))

    read_in :
        (j : ℕ)
        → get_or new_row j []
          ≡ (if b == j then get_or (get_or g a []) b [] ++ c ∷ [] else get_or (get_or g a []) j [])
    read_in j = get_or-set (get_or g a []) b j _ [] (omega (arith, v.columns a ha))

    new_cell :
        (i j : ℕ)
        → i < n
        → j < n
        → get_or (get_or (set g a new_row) i []) j []
          ≡ (if (a == i) && (b == j) then h i j ++ c ∷ [] else h i j)
    new_cell i j hi hj = ap (λ row. get_or row j []) (read i) ∙ elim (Bool-cases (a == i)) [
      | inl same ↦
          let e : a ≡ i = (==_iff a i).0 same in
          rw same (
            read_in j ∙ elim (Bool-cases (b == j)) [
              | inl this ↦
                  let e' : b ≡ j = (==_iff b j).0 this in
                  rw (this, ← e, ← e') (ap (λ l. l ++ c ∷ []) (v.cell a b ha hb))
              | inr that ↦ rw (that, ← e) (v.cell a j ha hj)
            ])
      | inr other ↦ rw other (v.cell i j hi hj)
    ]

-- What an edge adds to a list, by the distances.
abbrev pub near : Matrix → ℕ → ℕ → ℕ → Bool
near d a b j = d a j == d b j + 1

abbrev pub added : Matrix → Edge → Lists
added d (a, b) i j =
    (if (a == i) && near d a b j then b ∷ [] else [])
    ++ (if (b == i) && near d b a j then a ∷ [] else [])

abbrev added_before : ℕ → Matrix → Edge → Lists → Lists
added_before k d e h i j = if ltb j k then h i j ++ added d e i j else h i j

push_if-ListsAre :
    (n : ℕ) (h : Lists) (a b c : ℕ) (test : Bool) (g : CandidateList)
    → a < n
    → b < n
    → ListsAre n h g
    → ListsAre n
        (λ i j. h i j ++ (if (b == j) && (a == i) && test then c ∷ [] else []))
        (if test then push_candidate a b c g else g)
push_if-ListsAre n h a b c true g ha hb v =
    ListsAre-of_agree n _ _ _ (λ i j hi hj. pushed (a == i) (b == j) (h i j))
      (push_candidate-ListsAre n h a b c g ha hb v)
  where
    pushed :
        (p q : Bool) (l : List ℕ)
        → (if p && q then l ++ c ∷ [] else l) ≡ l ++ (if q && p && true then c ∷ [] else [])
    pushed true true l = refl
    pushed true false l = sym (append-nil l)
    pushed false true l = sym (append-nil l)
    pushed false false l = sym (append-nil l)
push_if-ListsAre n h a b c false g ha hb v =
    ListsAre-of_agree n h _ g (λ i j hi hj. unpushed (a == i) (b == j) (h i j)) v
  where
    unpushed : (p q : Bool) (l : List ℕ) → l ≡ l ++ (if q && p && false then c ∷ [] else [])
    unpushed true true l = sym (append-nil l)
    unpushed false true l = sym (append-nil l)
    unpushed true false l = sym (append-nil l)
    unpushed false false l = sym (append-nil l)

add_candidates-ListsAre :
    (n : ℕ) (dist : List ℕ) (h : Lists) (a b j : ℕ) (g : CandidateList)
    → a < n
    → b < n
    → j < n
    → ListsAre n (added_before j (dist_at n dist) (a, b) h) g
    → ListsAre n (added_before (suc j) (dist_at n dist) (a, b) h) (add_candidates n dist (a, b) j g)
unfolding add_candidates
add_candidates-ListsAre n dist h a b j g ha hb hj v =
    let d = dist_at n dist in
    ListsAre-of_agree n _ _ _ (λ x y hx hy. agree x y)
      (push_if-ListsAre n _ b j a (near d b a j) _ hb hj
        (push_if-ListsAre n _ a j b (near d a b j) g ha hj v))
  where
    agree :
        (x y : ℕ)
        → (added_before j (dist_at n dist) (a, b) h x y
              ++ (if (j == y) && (a == x) && near (dist_at n dist) a b j then b ∷ [] else []))
            ++ (if (j == y) && (b == x) && near (dist_at n dist) b a j then a ∷ [] else [])
          ≡ added_before (suc j) (dist_at n dist) (a, b) h x y
    agree x y = elim (Bool-cases (j == y)) [
      | inl same ↦
          let e : j ≡ y = (==_iff j y).0 same in
          let old : ltb y j ≡ false = ground arith in
          let new : ltb y (suc j) ≡ true = ground arith in
          rw (same, old, new)
            (subst
              (λ k.
                (h x y ++ (if (a == x) && near (dist_at n dist) a b j then b ∷ [] else []))
                  ++ (if (b == x) && near (dist_at n dist) b a j then a ∷ [] else [])
                ≡ h x y ++ added (dist_at n dist) (a, b) x k)
              e (append_assoc (h x y) _ _))
      | inr other ↦
          let next : ltb y (suc j) ≡ ltb y j = ground arith in
          rw (other, next) (append-nil _ ∙ append-nil _)
    ]

edge_candidates-ListsAre :
    (n : ℕ) (dist : List ℕ) (h : Lists) (a b : ℕ) (g : CandidateList)
    → a < n
    → b < n
    → ListsAre n h g
    → ListsAre n
        (λ i j. h i j ++ added (dist_at n dist) (a, b) i j)
        (edge_candidates n dist (a, b) g)
unfolding edge_candidates
edge_candidates-ListsAre n dist h a b g ha hb v =
    ListsAre-of_agree n (added_before n (dist_at n dist) (a, b) h) _ _
      (λ i j hi hj. rw (lt→ltb j n hj))
      (count_up-inv (λ j. ListsAre n (added_before j (dist_at n dist) (a, b) h)) n
        (λ j. add_candidates n dist (a, b) j)
        (λ j g' hj. add_candidates-ListsAre n dist h a b j g' ha hb hj) n 0 g (omega arith)
        (ListsAre-of_agree n h (added_before 0 (dist_at n dist) (a, b) h) g
          (λ i j hi hj. let e : ltb j 0 ≡ false = ground arith in rw e) v))

-- What all edges add.
unfoldable pub added_by : Matrix → List Edge → Lists
added_by d [] i j = []
added_by d (e ∷ es) i j = added d e i j ++ added_by d es i j

pub all_candidates-ListsAre :
    (n : ℕ) (dist : List ℕ) (es : List Edge) (h : Lists) (g : CandidateList)
    → IsWithin n es
    → ListsAre n h g
    → ListsAre n (λ i j. h i j ++ added_by (dist_at n dist) es i j) (all_candidates n dist es g)
unfolding all_candidates added_by
all_candidates-ListsAre n dist [] h g w v =
    ListsAre-of_agree n h _ g (λ i j hi hj. sym (append-nil (h i j))) v
all_candidates-ListsAre n dist ((a, b) ∷ es) h g w v =
    ListsAre-of_agree n _ _ _ (λ i j hi hj. append_assoc (h i j) _ _)
      (all_candidates-ListsAre n dist es _ _ w.1
        (edge_candidates-ListsAre n dist h a b g w.0.0 w.0.1 v))

pub empty_table : (n : ℕ) → ListsAre n (λ i j. []) (replicate n (replicate n []))
unfolding candidates_at
empty_table n = record {
  rows = length-replicate n (replicate n []);
  columns = λ i hi. ap length (get_or-replicate n i (replicate n []) [] hi) ∙ length-replicate n [];
  cell = λ i j hi hj.
      ap (λ row. get_or row j []) (get_or-replicate n i (replicate n []) [] hi)
      ∙ get_or-replicate n j [] [] hj;
}
  where
    get_or-replicate : {A : Type 0} (n i : ℕ) (a d : A) → i < n → get_or (replicate n a) i d ≡ a
    get_or-replicate zero i a d h = elim h [ ]
    get_or-replicate (suc n) zero a d h = refl
    get_or-replicate (suc n) (suc i) a d h = get_or-replicate n i a d (omega arith)
