-- ===== src/Routing/Multicast/Walks.antt =====
-- The hops that the walks of arbiter-multicast-helper.cc record lead from the source to every
-- destination.
use hypatia_multicast.Base.{
  ℕ, zero, suc, ◌≡◌, refl, sym, ap, subst, ◌∙◌, List, [], ◌∷◌, some, ok, if◌then◌else◌, for_each,
  arith, ◌==◌, Bool-cases, Option-cases, inl, inr, undefined, or_throw, >>=-eq-ok, or_throw-eq-ok,
  get_elem?, ==_iff, In, find, find_or, find_or-put, find_or-some, find_or-none, insert_set,
  In-insert_set_self, In-insert_set,
}
use hypatia_multicast.Routing.Ecmp.{CandidateList, candidates_at, infinite}
use hypatia_multicast.Routing.Multicast.{Hops, if_idx_of, record_hop, walk, collect_hops}

module _ (ecmp : CandidateList) (ifs : List (List ℕ)) where
  -- Node x is to send on to y, which is its first candidate for some destination.
  abbrev pub Recorded : Hops → ℕ → ℕ → Type 0
  Recorded h x y =
      In x h.nodes_ids_to_install
      × (dst : ℕ) × (get_elem? (candidates_at ecmp x dst) 0 ≡ some y)
      × (i : ℕ) × (if_idx_of ifs x y ≡ ok i)
      × In i (find_or x [] h.node_id_to_oifs)

  pub data Reaches (h : Hops) : ℕ → ℕ → Type 0 where
    arrived : {x : ℕ} → Reaches h x x
    via : {x z : ℕ} (y : ℕ) → Recorded h x y → Reaches h y z → Reaches h x z

  abbrev pub Extends : Hops → Hops → Type 0
  Extends h h' = (x y : ℕ) → Recorded h x y → Recorded h' x y

  Reaches-Extends : {h h' : Hops} {x z : ℕ} → Extends h h' → Reaches h x z → Reaches h' x z
  Reaches-Extends ext arrived = arrived
  Reaches-Extends ext (via y r rest) = via y (ext _ y r) (Reaches-Extends ext rest)

  -- The set of a node after a hop.
  oifs-record_hop :
      (a x y oif iif : ℕ) (h : Hops)
      → find_or a [] (record_hop x y oif iif h).node_id_to_oifs ≡ (
          if x == a
          then insert_set oif (find_or x [] h.node_id_to_oifs)
          else find_or a [] h.node_id_to_oifs)
  unfolding record_hop insert_set find_or
  oifs-record_hop a x y oif iif h = elim (Option-cases (find x h.node_id_to_oifs)) [
    | inl e ↦
        rw (e, record_hop)
          (find_or-put x a (oif ∷ []) [] h.node_id_to_oifs
            ∙ ap (λ s. if x == a then s else find_or a [] h.node_id_to_oifs)
                (ap (insert_set oif) (sym (find_or-none x [] h.node_id_to_oifs e))))
    | inr (oifs, e) ↦
        rw (e, record_hop)
          (find_or-put x a (insert_set oif oifs) [] h.node_id_to_oifs
            ∙ ap (λ s. if x == a then insert_set oif s else find_or a [] h.node_id_to_oifs)
                (sym (find_or-some x [] h.node_id_to_oifs e)))
  ]

  nodes-record_hop :
      (x y oif iif : ℕ) (h : Hops)
      → (record_hop x y oif iif h).nodes_ids_to_install ≡ insert_set x h.nodes_ids_to_install
  unfolding record_hop
  nodes-record_hop x y oif iif h = refl

  record_hop_self :
      (x y oif iif dst : ℕ) (h : Hops)
      → get_elem? (candidates_at ecmp x dst) 0 ≡ some y
      → if_idx_of ifs x y ≡ ok oif
      → Recorded (record_hop x y oif iif h) x y
  record_hop_self x y oif iif dst h c e = (
    subst (In x) (sym (nodes-record_hop x y oif iif h))
        (In-insert_set_self x h.nodes_ids_to_install),
    dst,
    c,
    oif,
    e,
    rw (oifs-record_hop x x y oif iif h, (==_iff x x).1 refl) (In-insert_set_self oif _),
  )

  record_hop-Extends : (x y oif iif : ℕ) (h : Hops) → Extends h (record_hop x y oif iif h)
  record_hop-Extends x y oif iif h a b (m, dst, c, i, e, sent) = (
    subst (In a) (sym (nodes-record_hop x y oif iif h))
        (In-insert_set x a h.nodes_ids_to_install m),
    dst,
    c,
    i,
    e,
    rw (oifs-record_hop a x y oif iif h) (elim (Bool-cases (x == a)) [
      | inl same ↦
          rw (same, (==_iff x a).0 same) (In-insert_set oif i (find_or a [] h.node_id_to_oifs) sent)
      | inr other ↦ rw other sent
    ]),
  )

  stop :
      (dst cur : ℕ) (h : Hops) {h' : Hops}
      → cur ≡ dst
      → ok h ≡ ok h'
      → Extends h h' × Reaches h' cur dst
  stop dst cur h {h'} e e' =
      let same : h ≡ h' = cc in
      (λ x y r. subst (λ k. Recorded k x y) same r, subst (λ d. Reaches h' cur d) e arrived)

  -- One walk.
  walk-Reaches :
      (fuel : ℕ) (dst cur : ℕ) (h : Hops) {h' : Hops}
      → walk fuel ecmp ifs dst cur h ≡ ok h'
      → Extends h h' × Reaches h' cur dst
  unfolding walk
  walk-Reaches zero dst cur h {h'} e = elim (Bool-cases (cur == dst)) [
    | inl same ↦ stop dst cur h ((==_iff cur dst).0 same) (rw (same, walk) at e)
    | inr other ↦ absurd (ground arith)
  ]
  walk-Reaches (suc fuel) dst cur h {h'} e = elim (Bool-cases (cur == dst)) [
    | inl same ↦ stop dst cur h ((==_iff cur dst).0 same) (rw (same, walk) at e)
    | inr other ↦
        let (nxt, e1, r1) =
          >>=-eq-ok (or_throw (get_elem? (candidates_at ecmp cur dst) 0) undefined) _
            (rw (other, walk) at e) in
        let (oif, e2, r2) = >>=-eq-ok (if_idx_of ifs cur nxt) _ r1 in
        let (iif, e3, r3) = >>=-eq-ok (if_idx_of ifs nxt cur) _ r2 in
        let (ext, reach) = walk-Reaches fuel dst nxt (record_hop cur nxt oif iif h) r3 in
        (
          λ x y r. ext x y (record_hop-Extends cur nxt oif iif h x y r),
          via nxt (ext cur nxt (record_hop_self cur nxt oif iif dst h (or_throw-eq-ok _ _ e1) e2))
              reach,
        )
  ]

  -- All walks of a request.
  pub collect_hops-Reaches :
      (src : ℕ) (dsts : List ℕ) (h : Hops) {h' : Hops}
      → collect_hops ecmp ifs src dsts h ≡ ok h'
      → Extends h h' × ((dst : ℕ) → In dst dsts → Reaches h' src dst)
  unfolding collect_hops for_each
  collect_hops-Reaches src [] h {h'} e =
      let same : h ≡ h' = cc in (λ x y r. subst (λ k. Recorded k x y) same r, λ dst m. absurd m)
  collect_hops-Reaches src (d ∷ dsts) h {h'} e =
      let (h1, e1, r1) = >>=-eq-ok (walk infinite ecmp ifs d src h) _ e in
      let (ext, reach) = walk-Reaches infinite d src h e1 in
      let (ext', rest) = collect_hops-Reaches src dsts h1 r1 in
      (λ x y r. ext' x y (ext x y r), λ dst m. first dst m reach ext' rest)
    where
      first :
          {h1 : Hops} (dst : ℕ)
          → In dst (d ∷ dsts)
          → Reaches h1 src d
          → Extends h1 h'
          → ((dst : ℕ) → In dst dsts → Reaches h' src dst)
          → Reaches h' src dst
      first dst (inl same) reach ext' rest =
          subst (Reaches h' src) (sym same) (Reaches-Extends ext' reach)
      first dst (inr m) reach ext' rest = rest dst m
