-- ===== src/TopologyPtop/Links/Keys.antt =====
-- The keys of the maps of topology-ptop.cc, and what its loops do to them.
use hypatia_multicast.Base.{
  ℕ, suc, ◌*◌, ◌≤◌, ◌≡◌, refl, sym, ap, subst, ◌⊎◌, true, List, [], ◌∷◌, arith, Bool-cases, inl,
  inr, length, In, ◌↔◌, Result, Ensures, bind, returns, Ascends, insert_by, length-insert_by,
  insert_by-Ascends, insert_by-In, In-insert_by,
}
use hypatia_multicast.ExpUtil.Text.{Text}
use hypatia_multicast.Routing.Ecmp.{Edge}
use hypatia_multicast.TopologyPtop.{edge_lt}
use hypatia_multicast.TopologyPtop.Edges.{edge_lt-StrictOrder}
use hypatia_multicast.TopologyPtop.Links.{
  EdgeMap, put_edge, has_edge, parse_values, fill_undirected, fill_directed,
}

abbrev pub keys : {V : Type 0} → EdgeMap V → List Edge
keys [] = []
keys ((e, v) ∷ m) = e ∷ keys m

-- The keys of a map are a std::set.
keys-put_edge :
    {V : Type 0} (e : Edge) (v : V) (m : EdgeMap V)
    → keys (put_edge e v m) ≡ insert_by edge_lt e (keys m)
unfolding put_edge insert_by
keys-put_edge e v [] = refl
keys-put_edge e v ((j, w) ∷ m) = elim (Bool-cases (edge_lt e j)) [
  | inl before ↦ rw before
  | inr other ↦ elim (Bool-cases (edge_lt j e)) [
    | inl after ↦ rw (other, after) (ap (λ ks. j ∷ ks) (keys-put_edge e v m))
    | inr same ↦
        rw (other, same) (ap (λ k. k ∷ keys m) (edge_lt-StrictOrder.connected e j other same))
  ]
]

pub length-keys : {V : Type 0} (m : EdgeMap V) → length (keys m) ≡ length m
length-keys [] = refl
length-keys (x ∷ m) = ap suc (length-keys m)

pub has_edge-In : (e : Edge) (es : List Edge) → has_edge e es ≡ true → In e es
unfolding has_edge
has_edge-In e [] h = cc
has_edge-In e (j ∷ es) h = elim (Bool-cases (edge_lt e j)) [
  | inl before ↦ inr (has_edge-In e es (rw (before, has_edge) at h))
  | inr other ↦ elim (Bool-cases (edge_lt j e)) [
    | inl after ↦ inr (has_edge-In e es (rw (other, after, has_edge) at h))
    | inr same ↦ inl (edge_lt-StrictOrder.connected e j other same)
  ]
]

-- Ascending keys that all satisfy P.
abbrev pub KeysAre : {V : Type 0} → (Edge → Type 0) → EdgeMap V → Type 0
KeysAre P m = Ascends edge_lt (keys m) × ((e : Edge) → In e (keys m) → P e)

pub put_edge-KeysAre :
    {V : Type 0} (P : Edge → Type 0) (e : Edge) (v : V) (m : EdgeMap V)
    → P e
    → KeysAre P m
    → KeysAre P (put_edge e v m)
put_edge-KeysAre P e v m p h = rw (keys-put_edge e v m) (
  insert_by-Ascends edge_lt edge_lt-StrictOrder e (keys m) h.0,
  λ k i. elim (insert_by-In edge_lt edge_lt-StrictOrder e k (keys m) i) [
    | inl same ↦ subst P (sym same) p
    | inr old ↦ h.1 k old
  ],
)

abbrev swap : Edge → Edge
swap (a, b) = (b, a)

-- Each edge in both directions.
pub both_directions : List Edge → List Edge
both_directions [] = []
both_directions ((a, b) ∷ es) =
    insert_by edge_lt (b, a) (insert_by edge_lt (a, b) (both_directions es))

-- The keys after a loop that sets some.
pub record Sets {V : Type 0} (m : EdgeMap V) (es : List Edge) (r : EdgeMap V) : Type 0 where
  pub ascends : Ascends edge_lt (keys r)
  pub kept : (e : Edge) → In e (keys m) → In e (keys r)
  pub added : (e : Edge) → In e es → In e (keys r)
  pub only : (e : Edge) → In e (keys r) → In e (keys m) ⊎ In e es

Sets-put_edge :
    {V : Type 0} (e : Edge) (v : V) (m : EdgeMap V) (es : List Edge) (r : EdgeMap V)
    → Sets (put_edge e v m) es r
    → Sets m (e ∷ es) r
Sets-put_edge e v m es r h = record {
  ascends = h.ascends;
  kept = λ k i.
      h.kept k
        (rw (keys-put_edge e v m) (In-insert_by edge_lt edge_lt-StrictOrder e k (keys m) (inr i)));
  added = λ k i. elim i [
    | inl same ↦ h.kept k (
        rw (keys-put_edge e v m) (In-insert_by edge_lt edge_lt-StrictOrder e k (keys m) (inl same)))
    | inr later ↦ h.added k later
  ];
  only = λ k i. elim (h.only k i) [
    | inl old ↦
        elim (insert_by-In edge_lt edge_lt-StrictOrder e k (keys m)
          (subst (In k) (keys-put_edge e v m) old)) [
            | inl same ↦ inr (inl same)
            | inr older ↦ inl older
          ]
    | inr new ↦ inr (inr new)
  ];
}

put_edge-Ascends :
    {V : Type 0} (e : Edge) (v : V) (m : EdgeMap V)
    → Ascends edge_lt (keys m)
    → Ascends edge_lt (keys (put_edge e v m))
put_edge-Ascends e v m h =
    rw (keys-put_edge e v m) (insert_by-Ascends edge_lt edge_lt-StrictOrder e (keys m) h)

Sets-nothing : {V : Type 0} (m : EdgeMap V) → Ascends edge_lt (keys m) → Sets m [] m
Sets-nothing m h = record {
  ascends = h;
  kept = λ e i. i;
  added = λ e i. absurd i;
  only = λ e i. inl i;
}

pub parse_values-Sets :
    {V : Type 0} (parse : Text → Result V) (m : EdgeMap V) (entries : EdgeMap Text)
    → Ascends edge_lt (keys m)
    → Ensures (Sets m (keys entries)) (parse_values parse m entries)
unfolding parse_values
parse_values-Sets parse m [] h = returns m (Sets-nothing m h)
parse_values-Sets parse m ((e, text) ∷ entries) h = bind (parse text) _ λ v _. record {
  holds = λ r made.
      Sets-put_edge e v m (keys entries) r (
        (parse_values-Sets parse (put_edge e v m) entries (put_edge-Ascends e v m h)).holds r made);
}

pub fill_undirected-Sets :
    {V : Type 0} (v : V) (m : EdgeMap V) (es : List Edge)
    → Ascends edge_lt (keys m)
    → Sets m es (fill_undirected v m es)
unfolding fill_undirected
fill_undirected-Sets v m [] h = Sets-nothing m h
fill_undirected-Sets v m (e ∷ es) h =
    Sets-put_edge e v m es _ (fill_undirected-Sets v (put_edge e v m) es (put_edge-Ascends e v m h))

pub both_directions-In :
    (x y : ℕ) (es : List Edge) → In (x, y) (both_directions es) → In (x, y) es ⊎ In (y, x) es
unfolding both_directions
both_directions-In x y [] m = absurd m
both_directions-In x y ((a, b) ∷ es) m =
    elim (insert_by-In edge_lt edge_lt-StrictOrder (b, a) (x, y) _ m) [
      | inl e ↦ inr (inl (ap swap e))
      | inr l ↦ elim (insert_by-In edge_lt edge_lt-StrictOrder (a, b) (x, y) _ l) [
        | inl e ↦ inl (inl e)
        | inr k ↦ elim (both_directions-In x y es k) [ inl i ↦ inl (inr i) | inr j ↦ inr (inr j) ]
      ]
    ]

In-both_cons :
    (a b : ℕ) (e : Edge) (es : List Edge)
    → (e ≡ (b, a)) ⊎ (e ≡ (a, b)) ⊎ In e (both_directions es)
    → In e (both_directions ((a, b) ∷ es))
unfolding both_directions
In-both_cons a b e es m =
    In-insert_by edge_lt edge_lt-StrictOrder (b, a) e
      (insert_by edge_lt (a, b) (both_directions es))
      (elim m [
        | inl back ↦ inl back
        | inr k ↦ inr (In-insert_by edge_lt edge_lt-StrictOrder (a, b) e (both_directions es) k)
      ])

pub In-both_directions :
    (x y : ℕ) (es : List Edge) → In (x, y) es ⊎ In (y, x) es → In (x, y) (both_directions es)
unfolding both_directions
In-both_directions x y [] (inl m) = absurd m
In-both_directions x y [] (inr m) = absurd m
In-both_directions x y ((a, b) ∷ es) (inl (inl e)) = In-both_cons a b (x, y) es (inr (inl e))
In-both_directions x y ((a, b) ∷ es) (inl (inr l)) =
    In-both_cons a b (x, y) es (inr (inr (In-both_directions x y es (inl l))))
In-both_directions x y ((a, b) ∷ es) (inr (inl e)) = In-both_cons a b (x, y) es (inl (ap swap e))
In-both_directions x y ((a, b) ∷ es) (inr (inr l)) =
    In-both_cons a b (x, y) es (inr (inr (In-both_directions x y es (inr l))))

pub both_directions-Ascends : (es : List Edge) → Ascends edge_lt (both_directions es)
unfolding both_directions
both_directions-Ascends [] = tt
both_directions-Ascends ((a, b) ∷ es) =
    insert_by-Ascends edge_lt edge_lt-StrictOrder (b, a) _
      (insert_by-Ascends edge_lt edge_lt-StrictOrder (a, b) _ (both_directions-Ascends es))

pub length-both_directions : (es : List Edge) → length (both_directions es) ≤ length es * 2
unfolding both_directions
length-both_directions [] = omega arith
length-both_directions ((a, b) ∷ es) =
    let one = length-insert_by edge_lt edge_lt-StrictOrder (a, b) (both_directions es) in
    let two =
      length-insert_by edge_lt edge_lt-StrictOrder (b, a)
        (insert_by edge_lt (a, b) (both_directions es)) in
    omega (arith, one, two, length-both_directions es)

pub fill_directed-Sets :
    {V : Type 0} (v : V) (m : EdgeMap V) (es : List Edge)
    → Ascends edge_lt (keys m)
    → (ks : List Edge) × Sets m ks (fill_directed v m es)
      × ((e : Edge) → In e ks ↔ In e (both_directions es))
unfolding fill_directed both_directions
fill_directed-Sets v m [] h = ([], Sets-nothing m h, λ e. (λ i. i, λ i. i))
fill_directed-Sets v m ((a, b) ∷ es) h =
    let h1 = put_edge-Ascends (a, b) v m h in
    let (ks, sets, same) =
      fill_directed-Sets v (put_edge (b, a) v (put_edge (a, b) v m)) es
        (put_edge-Ascends (b, a) v (put_edge (a, b) v m) h1) in
    (
      (a, b) ∷ (b, a) ∷ ks,
      Sets-put_edge (a, b) v m _ _ (Sets-put_edge (b, a) v (put_edge (a, b) v m) ks _ sets),
      λ e. (
        λ i.
            In-insert_by edge_lt edge_lt-StrictOrder (b, a) e
              (insert_by edge_lt (a, b) (both_directions es))
              (elim i [
                | inl x ↦
                    inr (
                      In-insert_by edge_lt edge_lt-StrictOrder (a, b) e (both_directions es)
                        (inl x))
                | inr (inl y) ↦ inl y
                | inr (inr z) ↦ inr (
                    In-insert_by edge_lt edge_lt-StrictOrder (a, b) e (both_directions es)
                      (inr ((same e).0 z)))
              ]),
        λ i.
            elim (insert_by-In edge_lt edge_lt-StrictOrder (b, a) e
              (insert_by edge_lt (a, b) (both_directions es)) i) [
                | inl y ↦ inr (inl y)
                | inr l ↦
                    elim (insert_by-In edge_lt edge_lt-StrictOrder (a, b) e (both_directions es)
                      l) [ inl x ↦ inl x | inr z ↦ inr (inr ((same e).1 z)) ]
              ],
      ),
    )
