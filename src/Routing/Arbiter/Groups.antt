-- ===== src/Routing/Arbiter/Groups.antt =====
-- The routes of a group in the arbiters of arbiter-multicast.cc.
use hypatia_multicast.Base.{
  ℕ, ◌≡◌, refl, sym, ap, ◌∙◌, ◌≢◌, true, false, List, [], ◌∷◌, ◌++◌, Option, some, none, Result, ok,
  if◌then◌else◌, arith, ◌==◌, Bool-cases, inl, inr, ==_iff, In,
}
use hypatia_multicast.Routing.Arbiter.{
  ArbiterResult, new_arbiter_result, MulticastRoute, nonzero_interfaces, apply_route,
  decide_multicast,
}

-- The route that a node uses for a group.
unfoldable pub first_route : ℕ → List MulticastRoute → Option MulticastRoute
first_route group [] = none
first_route group (r ∷ rs) = if group == r.group then some r else first_route group rs

pub first_route-append :
    (group : ℕ) (rs : List MulticastRoute) (r : MulticastRoute)
    → first_route group (rs ++ r ∷ []) ≡ elim (first_route group rs) [
      | some old ↦ some old
      | none ↦ if group == r.group then some r else none
    ]
unfolding first_route
first_route-append group [] r = refl
first_route-append group (x ∷ rs) r = ground (arith, first_route-append group rs r)

pub decide_multicast-first_route :
    (me : ℕ) (rs : List MulticastRoute) (origin group : ℕ) (r : MulticastRoute)
    → first_route group rs ≡ some r
    → decide_multicast me rs origin group ≡ apply_route me origin r
unfolding first_route decide_multicast
decide_multicast-first_route me [] origin group r e = cc
decide_multicast-first_route me (x ∷ rs) origin group r e = elim (Bool-cases (group == x.group)) [
  | inl same ↦
      let e' : some x ≡ some r = rw (same, first_route) at e in
      let same_route : x ≡ r = cc in rw same (ap (apply_route me origin) same_route)
  | inr other ↦
      rw other (decide_multicast-first_route me rs origin group r (rw (other, first_route) at e))
]

pub In-nonzero_interfaces : (i : ℕ) (is : List ℕ) → i ≢ 0 → In i is → In i (nonzero_interfaces is)
unfolding nonzero_interfaces
In-nonzero_interfaces i [] ne m = absurd m
In-nonzero_interfaces i (x ∷ is) ne m = ground (arith, In-nonzero_interfaces i is ne)

-- A node that is not the source forwards to every interface of the route that is not 0.
pub apply_route-forward :
    (me src : ℕ) (r : MulticastRoute)
    → src ≢ me
    → apply_route me src r
      ≡ ok (record (new_arbiter_result false 0 0) {
        is_multicast = true;
        out_if_idxs = nonzero_interfaces r.output_interfaces;
      })
unfolding apply_route
apply_route-forward me src r ne = let e : (src == me) ≡ false = ground arith in rw e

-- The source sends to its only interface.
pub apply_route-outbound :
    (me i : ℕ) (r : MulticastRoute)
    → r.output_interfaces ≡ i ∷ []
    → apply_route me me r
      ≡ ok (record (new_arbiter_result false 0 0) {
        is_multicast = true;
        is_multicast_outbound = true;
        out_if_idx = i;
      })
unfolding apply_route
apply_route-outbound me i r e = rw ((==_iff me me).1 refl, e)

-- The route of the group alone decides.
pub decide_multicast-by_route :
    (me : ℕ) (rs : List MulticastRoute) (origin group : ℕ)
    → decide_multicast me rs origin group ≡ elim (first_route group rs) [
      | none ↦ ok (new_arbiter_result true 0 0)
      | some r ↦ apply_route me origin r
    ]
unfolding first_route decide_multicast
decide_multicast-by_route me [] origin group = refl
decide_multicast-by_route me (x ∷ rs) origin group = elim (Bool-cases (group == x.group)) [
  | inl same ↦ rw same
  | inr other ↦ rw other (decide_multicast-by_route me rs origin group)
]

pub decide_multicast-same_route :
    (me : ℕ) (rs rs' : List MulticastRoute) (origin group : ℕ)
    → first_route group rs ≡ first_route group rs'
    → decide_multicast me rs origin group ≡ decide_multicast me rs' origin group
decide_multicast-same_route me rs rs' origin group e =
    decide_multicast-by_route me rs origin group
    ∙ ap
        (λ o. elim o as (λ _. Result ArbiterResult) [
          | none ↦ ok (new_arbiter_result true 0 0)
          | some r ↦ apply_route me origin r
        ])
        e
    ∙ sym (decide_multicast-by_route me rs' origin group)
