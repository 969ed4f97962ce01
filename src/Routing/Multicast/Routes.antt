-- ===== src/Routing/Multicast/Routes.antt =====
-- The routes that arbiter-multicast-helper.cc installs: each node of a request has its route.
use hypatia_multicast.Base.{
  ℕ, zero, suc, ◌<◌, ◌≡◌, refl, sym, ap, subst, ◌∙◌, ◌⊎◌, true, false, List, [], ◌∷◌, ◌++◌, Option,
  some, none, ok, if◌then◌else◌, for_each, arith, ◌==◌, Bool-cases, inl, inr, undefined, or_throw,
  >>=-eq-ok, or_throw-eq-ok, length, get_elem?, set, get_or, ==_iff, get_or-set, In,
}
use hypatia_multicast.Routing.Arbiter.{MulticastRoute, add_multicast_route}
use hypatia_multicast.Routing.Arbiter.Groups.{first_route, first_route-append}
use hypatia_multicast.Routing.Multicast.{Hops, RoutingState, install, route_at, install_all}

abbrev pub routes_of : RoutingState → ℕ → List MulticastRoute
routes_of state x = get_or state x []

get_elem?-get_or :
    (s : RoutingState) (x : ℕ) {r : List MulticastRoute}
    → get_elem? s x ≡ some r
    → (get_or s x [] ≡ r) × (x < length s)
get_elem?-get_or [] x e = cc
get_elem?-get_or (a ∷ s) zero e = (cc, omega arith)
get_elem?-get_or (a ∷ s) (suc x) e = let (same, lt) = get_elem?-get_or s x e in (same, omega arith)

install-routes_of :
    (node x : ℕ) (r : MulticastRoute) (s : RoutingState) {s' : RoutingState}
    → install node r s ≡ ok s'
    → routes_of s' x ≡ (if node == x then routes_of s node ++ r ∷ [] else routes_of s x)
unfolding install add_multicast_route
install-routes_of node x r s {s'} e =
    let (rs, e1, r1) = >>=-eq-ok (or_throw (get_elem? s node) undefined) _ e in
    let (same, lt) = get_elem?-get_or s node (or_throw-eq-ok _ _ e1) in
    let e' : set s node (rs ++ r ∷ []) ≡ s' = cc in
    subst (λ k. routes_of k x ≡ (if node == x then routes_of s node ++ r ∷ [] else routes_of s x))
      e'
      (subst
        (λ l.
          routes_of (set s node (rs ++ r ∷ [])) x
          ≡ (if node == x then l ++ r ∷ [] else routes_of s x))
        (sym same) (get_or-set s node x (rs ++ r ∷ []) [] lt))

-- Routes of another group do not matter.
install-other_group :
    (node x group : ℕ) (r : MulticastRoute) (s : RoutingState) {s' : RoutingState}
    → install node r s ≡ ok s'
    → (group == r.group) ≡ false
    → first_route group (routes_of s' x) ≡ first_route group (routes_of s x)
install-other_group node x group r s e other =
    ap (first_route group) (install-routes_of node x r s e) ∙ elim (Bool-cases (node == x)) [
      | inl same ↦
          rw (same, ← (==_iff node x).0 same)
            (first_route-append group (routes_of s node) r
              ∙ skip (first_route group (routes_of s node)))
      | inr elsewhere ↦ rw elsewhere
    ]
  where
    skip :
        (o : Option MulticastRoute)
        → elim o as (λ _. Option MulticastRoute) [
          | some old ↦ some old
          | none ↦ if group == r.group then some r else none
        ]
          ≡ o
    skip none = rw other
    skip (some old) = refl

module _ (src origin group : ℕ) (h : Hops) where
  -- A node has its route for the group.
  abbrev pub HasRoute : RoutingState → ℕ → Type 0
  HasRoute s x = first_route group (routes_of s x) ≡ some (route_at src origin group h x)

  route_at-group : (x : ℕ) → (group == (route_at src origin group h x).group) ≡ true
  unfolding route_at
  route_at-group x = (==_iff group group).1 refl

  -- A node has no route of the group but its own.
  abbrev pub Free : RoutingState → Type 0
  Free s = (x : ℕ) → (first_route group (routes_of s x) ≡ none) ⊎ HasRoute s x

  install-HasRoute :
      (node x : ℕ) (s : RoutingState) {s' : RoutingState}
      → install node (route_at src origin group h node) s ≡ ok s'
      → Free s
      → ((node ≡ x) ⊎ HasRoute s x)
      → HasRoute s' x
  install-HasRoute node x s e free here =
      ap (first_route group) (install-routes_of node x _ s e) ∙ elim (Bool-cases (node == x)) [
        | inl same ↦
            rw (same, ← (==_iff node x).0 same)
              (first_route-append group (routes_of s node) _
                ∙ own (first_route group (routes_of s node)) (free node))
        | inr elsewhere ↦
            rw elsewhere (elim here [ inl same ↦ absurd (ground arith) | inr has ↦ has ])
      ]
    where
      own :
          (o : Option MulticastRoute)
          → (o ≡ none) ⊎ (o ≡ some (route_at src origin group h node))
          → elim o as (λ _. Option MulticastRoute) [
            | some old ↦ some old
            | none ↦
                if group == (route_at src origin group h node).group
                then some (route_at src origin group h node)
                else none
          ]
            ≡ some (route_at src origin group h node)
      own none f = rw (route_at-group node)
      own (some old) (inl f) = cc
      own (some old) (inr f) = f

  install-Free :
      (node : ℕ) (s : RoutingState) {s' : RoutingState}
      → install node (route_at src origin group h node) s ≡ ok s'
      → Free s
      → Free s'
  install-Free node s {s'} e free x = elim (Bool-cases (node == x)) [
    | inl same ↦ inr (install-HasRoute node x s e free (inl ((==_iff node x).0 same)))
    | inr elsewhere ↦
        let unchanged : routes_of s' x ≡ routes_of s x =
          install-routes_of node x _ s e ∙ rw elsewhere in
        subst
          (λ l.
            (first_route group l ≡ none)
            ⊎ (first_route group l ≡ some (route_at src origin group h x)))
          (sym unchanged) (free x)
  ]

  pub install_all-HasRoute :
      (nodes : List ℕ) (s : RoutingState) {s' : RoutingState}
      → install_all src origin group h nodes s ≡ ok s'
      → Free s
      → (x : ℕ) → (In x nodes ⊎ HasRoute s x)
      → HasRoute s' x
  unfolding install_all for_each
  install_all-HasRoute [] s {s'} e free x (inl m) = absurd m
  install_all-HasRoute [] s {s'} e free x (inr has) =
      let same : s ≡ s' = cc in subst (λ k. HasRoute k x) same has
  install_all-HasRoute (node ∷ nodes) s {s'} e free x given =
      let (s1, e1, r1) = >>=-eq-ok (install node (route_at src origin group h node) s) _ e in
      install_all-HasRoute nodes s1 r1 (install-Free node s e1 free) x (pass s1 e1 given)
    where
      pass :
          (s1 : RoutingState)
          → install node (route_at src origin group h node) s ≡ ok s1
          → (In x (node ∷ nodes) ⊎ HasRoute s x)
          → In x nodes ⊎ HasRoute s1 x
      pass s1 e1 (inl (inl same)) = inr (install-HasRoute node x s e1 free (inl (sym same)))
      pass s1 e1 (inl (inr m)) = inl m
      pass s1 e1 (inr has) = inr (install-HasRoute node x s e1 free (inr has))

  pub install_all-other_group :
      (g : ℕ) (nodes : List ℕ) (s : RoutingState) {s' : RoutingState}
      → install_all src origin group h nodes s ≡ ok s'
      → (g == group) ≡ false
      → (x : ℕ) → first_route g (routes_of s' x) ≡ first_route g (routes_of s x)
  unfolding install_all for_each route_at
  install_all-other_group g [] s {s'} e other x =
      let same : s ≡ s' = cc in
      subst (λ k. first_route g (routes_of k x) ≡ first_route g (routes_of s x)) same refl
  install_all-other_group g (node ∷ nodes) s e other x =
      let (s1, e1, r1) = >>=-eq-ok (install node (route_at src origin group h node) s) _ e in
      install_all-other_group g nodes s1 r1 other x ∙ install-other_group node x g _ s e1 other
