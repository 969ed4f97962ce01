-- ===== src/TopologyPtop/Edges.antt =====
-- The loop over the edges of topology-ptop.cc: the sorted list, the set and the adjacency lists say
-- the same.
use mathlib.Core.Path.{ap₂}
use hypatia_multicast.Base.{
  ℕ, zero, suc, ◌+◌, ◌≤◌, ◌<◌, ◌≡◌, refl, sym, ap, subst, ◌∙◌, ◌⊎◌, List, [], ◌∷◌, ◌++◌, not,
  for_each, arith, ltb, ◌==◌, Bool-cases, inl, inr, length, In, if◌then◌else◌, get_or, replicate,
  length-set, length-append, length-replicate, get_or-set, get_elem?, or_throw, undefined,
  invalid_argument, Ensures, bind, guarded, returns, for_each-inv, Ascends, StrictOrder, insert_by,
  insert_by-Ascends, insert_by-In, In-insert_by, insert_set, In-insert_set_self, In-insert_set,
  insert_set-In, ==_iff,
}
use hypatia_multicast.ExpUtil.Text.{Text, split_string_expecting}
use hypatia_multicast.ExpUtil.Numbers.{parse_positive_int64}
use hypatia_multicast.Routing.Ecmp.{Edge}
use hypatia_multicast.TopologyPtop.{
  edge_lt, EdgeSets, add_neighbor, add_edge, parse_edge, insert_sorted, sort_edges,
}

pub edge_lt-StrictOrder : StrictOrder edge_lt
edge_lt-StrictOrder = record {
  irrefl = λ x e. ground (arith, e);
  trans = λ x y z e f. ground (arith, e, f);
  connected = λ x y e f. ap₂ (λ a b. (a, b)) (ground (arith, e, f)) (ground (arith, e, f));
}

sort_edges-append :
    (sorted es : List Edge) (e : Edge)
    → sort_edges sorted (es ++ e ∷ []) ≡ insert_sorted e (sort_edges sorted es)
unfolding sort_edges
sort_edges-append sorted [] e = refl
sort_edges-append sorted (f ∷ es) e = sort_edges-append (insert_sorted f sorted) es e

length-insert_sorted : (e : Edge) (es : List Edge) → length (insert_sorted e es) ≡ suc (length es)
unfolding insert_sorted
length-insert_sorted e [] = refl
length-insert_sorted e (f ∷ fs) = elim (Bool-cases (edge_lt e f)) [
  | inl before ↦ rw before
  | inr other ↦ rw other (ap suc (length-insert_sorted e fs))
]

pub length-sort_edges :
    (sorted es : List Edge) → length (sort_edges sorted es) ≡ length sorted + length es
unfolding sort_edges
length-sort_edges sorted [] = omega arith
length-sort_edges sorted (e ∷ es) =
    omega (arith, length-sort_edges (insert_sorted e sorted) es, length-insert_sorted e sorted)

-- An insertion that makes the set larger is an insertion into the sorted list.
insert_by-insert_sorted :
    (e : Edge) (es : List Edge)
    → (length (insert_by edge_lt e es) ≤ suc (length es))
      × (length (insert_by edge_lt e es) ≡ suc (length es)
          → insert_by edge_lt e es ≡ insert_sorted e es)
unfolding insert_by insert_sorted
insert_by-insert_sorted e [] = (omega arith, λ _. refl)
insert_by-insert_sorted e (f ∷ fs) =
    let (le, eq) = insert_by-insert_sorted e fs in
    elim (Bool-cases (edge_lt e f)) [
      | inl before ↦ rw before (omega arith, λ _. refl)
      | inr other ↦ elim (Bool-cases (edge_lt f e)) [
        | inl after ↦
            rw (other, after) (omega (arith, le), λ h. ap (λ fs'. f ∷ fs') (eq (omega (arith, h))))
        | inr same ↦ rw (other, same) (omega arith, λ h. absurd (omega (arith, h)))
      ]
    ]

-- The neighbours that a table has for a node.
abbrev pub neighbors_at : List (List ℕ) → ℕ → List ℕ
neighbors_at adjacency x = get_or adjacency x []

-- What holds after some edges.
pub record IsFilled (n : ℕ) (st : EdgeSets) : Type 0 where
  pub ascends : Ascends edge_lt st.edge_set
  pub no_larger : length st.edge_set ≤ length st.edges
  pub sorted : length st.edge_set ≡ length st.edges → sort_edges [] st.edges ≡ st.edge_set
  pub oriented : (a b : ℕ) → In (a, b) st.edge_set → (a < b) × (b < n)
  pub tables : length st.adjacency ≡ n
  pub sound :
      (x y : ℕ) → In y (neighbors_at st.adjacency x) → In (x, y) st.edge_set ⊎ In (y, x) st.edge_set
  pub complete :
      (x y : ℕ)
      → In (x, y) st.edge_set
      → In y (neighbors_at st.adjacency x) × In x (neighbors_at st.adjacency y)

neighbors_at-add_neighbor :
    (a b x : ℕ) (adjacency : List (List ℕ))
    → a < length adjacency
    → neighbors_at (add_neighbor a b adjacency) x
      ≡ (if a == x then insert_set b (neighbors_at adjacency a) else neighbors_at adjacency x)
unfolding add_neighbor
neighbors_at-add_neighbor a b x adjacency h = get_or-set adjacency a x _ [] h

length-add_neighbor :
    (a b : ℕ) (adjacency : List (List ℕ)) → length (add_neighbor a b adjacency) ≡ length adjacency
unfolding add_neighbor
length-add_neighbor a b adjacency = length-set adjacency a _

add_neighbor-In :
    (a b x y : ℕ) (adjacency : List (List ℕ))
    → a < length adjacency
    → In y (neighbors_at (add_neighbor a b adjacency) x)
    → ((a ≡ x) × (b ≡ y)) ⊎ In y (neighbors_at adjacency x)
add_neighbor-In a b x y adjacency h m =
    let m' = subst (In y) (neighbors_at-add_neighbor a b x adjacency h) m in
    elim (Bool-cases (a == x)) [
      | inl here ↦
          let ax : a ≡ x = (==_iff a x).0 here in
          elim (insert_set-In b y (neighbors_at adjacency a) (
            subst
              (λ t.
                In y
                  (if t then insert_set b (neighbors_at adjacency a) else neighbors_at adjacency x))
              here m')) [
                | inl e ↦ inl (ax, sym e)
                | inr l ↦ inr (subst (λ w. In y (neighbors_at adjacency w)) ax l)
              ]
      | inr there ↦ inr (
          subst
            (λ t.
              In y
                (if t then insert_set b (neighbors_at adjacency a) else neighbors_at adjacency x))
            there m')
    ]

In-add_neighbor :
    (a b x y : ℕ) (adjacency : List (List ℕ))
    → a < length adjacency
    → ((a ≡ x) × (b ≡ y)) ⊎ In y (neighbors_at adjacency x)
    → In y (neighbors_at (add_neighbor a b adjacency) x)
In-add_neighbor a b x y adjacency h m =
    subst (In y) (sym (neighbors_at-add_neighbor a b x adjacency h)) (elim (Bool-cases (a == x)) [
      | inl here ↦
          let ax : a ≡ x = (==_iff a x).0 here in
          rw here (elim m [
            | inl e ↦
                subst (λ w. In w (insert_set b (neighbors_at adjacency a))) e.1
                  (In-insert_set_self b (neighbors_at adjacency a))
            | inr l ↦
                In-insert_set b y (neighbors_at adjacency a)
                  (subst (λ w. In y (neighbors_at adjacency w)) (sym ax) l)
          ])
      | inr there ↦ rw there (elim m [ inl e ↦ absurd (ground (arith, e.0, there)) | inr l ↦ l ])
    ])

add_edge-IsFilled :
    (n a b : ℕ) (st : EdgeSets) → a < b → b < n → IsFilled n st → IsFilled n (add_edge a b st)
unfolding add_edge
add_edge-IsFilled n a b st ab bn v =
    let (le, eq) = insert_by-insert_sorted (a, b) st.edge_set in
    let longer = length-append {0} st.edges ((a, b) ∷ []) in
    let ha : a < length st.adjacency = omega (arith, v.tables) in
    let hb : b < length (add_neighbor a b st.adjacency) =
      omega (arith, length-add_neighbor a b st.adjacency, v.tables) in
    let older = λ (e : Edge) (m : In e st.edge_set).
      In-insert_by edge_lt edge_lt-StrictOrder (a, b) e st.edge_set (inr m) in
    let newest = In-insert_by edge_lt edge_lt-StrictOrder (a, b) (a, b) st.edge_set (inl refl) in
    record {
      ascends = insert_by-Ascends edge_lt edge_lt-StrictOrder (a, b) st.edge_set v.ascends;
      no_larger = omega (arith, le, longer, v.no_larger);
      sorted = λ h.
          let same : length st.edge_set ≡ length st.edges =
            omega (arith, h, le, longer, v.no_larger) in
          sort_edges-append [] st.edges (a, b)
          ∙ ap (insert_sorted (a, b)) (v.sorted same)
          ∙ sym (eq (omega (arith, h, same, longer)));
      oriented = λ c d m.
          elim (insert_by-In edge_lt edge_lt-StrictOrder (a, b) (c, d) st.edge_set m) [
            | inl e ↦ (
              ground (arith, ap (λ (p : Edge). p.0) e, ap (λ (p : Edge). p.1) e),
              ground (arith, ap (λ (p : Edge). p.1) e),
            )
            | inr l ↦ v.oriented c d l
          ];
      tables =
          length-add_neighbor b a (add_neighbor a b st.adjacency)
          ∙ length-add_neighbor a b st.adjacency
          ∙ v.tables;
      sound = λ x y m. elim (add_neighbor-In b a x y _ hb m) [
        | inl e ↦ inr (
            subst (λ (p : Edge). In p (insert_by edge_lt (a, b) st.edge_set))
              (ap₂ (λ c d. (c, d)) e.1 e.0) newest)
        | inr l ↦ elim (add_neighbor-In a b x y _ ha l) [
          | inl e ↦ inl (
              subst (λ (p : Edge). In p (insert_by edge_lt (a, b) st.edge_set))
                (ap₂ (λ c d. (c, d)) e.0 e.1) newest)
          | inr k ↦ elim (v.sound x y k) [ inl j ↦ inl (older _ j) | inr j ↦ inr (older _ j) ]
        ]
      ];
      complete = λ x y m.
          elim (insert_by-In edge_lt edge_lt-StrictOrder (a, b) (x, y) st.edge_set m) [
            | inl e ↦
                let xa : a ≡ x = sym (ap (λ (p : Edge). p.0) e) in
                let yb : b ≡ y = sym (ap (λ (p : Edge). p.1) e) in
                (
                  In-add_neighbor b a x y _ hb (inr (In-add_neighbor a b x y _ ha (inl (xa, yb)))),
                  In-add_neighbor b a y x _ hb (inl (yb, xa)),
                )
            | inr l ↦
                let (p, q) = v.complete x y l in
                (
                  In-add_neighbor b a x y _ hb (inr (In-add_neighbor a b x y _ ha (inr p))),
                  In-add_neighbor b a y x _ hb (inr (In-add_neighbor a b y x _ ha (inr q))),
                )
          ];
    }

neighbors_at-replicate : (n x : ℕ) → neighbors_at (replicate n []) x ≡ []
neighbors_at-replicate zero x = refl
neighbors_at-replicate (suc n) zero = refl
neighbors_at-replicate (suc n) (suc x) = neighbors_at-replicate n x

parse_edge-IsFilled :
    (n : ℕ) (st : EdgeSets) (s : Text) → IsFilled n st → Ensures (IsFilled n) (parse_edge n st s)
unfolding parse_edge
parse_edge-IsFilled n st s v = bind (split_string_expecting s (b'-' ∷ []) 2) _ λ spl _.
    bind (or_throw (get_elem? spl 0) undefined) _ λ left _.
      bind (parse_positive_int64 left) _ λ a _.
        bind (or_throw (get_elem? spl 1) undefined) _ λ right _.
          bind (parse_positive_int64 right) _ λ b _. guarded (a == b) invalid_argument _ λ apart.
            guarded (not (ltb a n)) invalid_argument _ λ left_ok.
              guarded (not (ltb b n)) invalid_argument _ λ right_ok.
                guarded (ltb b a) invalid_argument _ λ in_order.
                  returns (add_edge a b st)
                    (add_edge-IsFilled n a b st (ground arith) (ground arith) v)

pub parse_edges-IsFilled :
    (n : ℕ) (string_set : List Text)
    → Ensures (IsFilled n) (
        for_each
          (parse_edge n)
          (record { edges = []; edge_set = []; adjacency = replicate n [] })
          string_set)
unfolding sort_edges
parse_edges-IsFilled n string_set =
    for_each-inv (IsFilled n) (parse_edge n) (parse_edge-IsFilled n) _ string_set (record {
      ascends = tt;
      no_larger = omega arith;
      sorted = λ _. refl;
      oriented = λ a b m. absurd m;
      tables = length-replicate n [];
      sound = λ x y m. absurd (subst (In y) (neighbors_at-replicate n x) m);
      complete = λ x y m. absurd m;
    })
