-- ===== src/Satellite/Forward/Decisions.antt =====
-- What arbiter-satnet.cc decides on the entries that arbiter-single-forward-helper.cc has read.
use hypatia_multicast.Base.{
  ℕ, zero, suc, ◌<◌, ◌≡◌, refl, sym, subst, ◌∙◌, inl, inr, Bool, true, false, List, [], ◌∷◌, Option,
  some, none, Result, ok, err, ◌==◌, ==_iff, or_throw, or_throw-eq-ok, assertion, undefined,
  get_elem?, set, replicate, length, get_elem?-set_self, get_elem?-set_ne, get_elem?-lt, arith,
  Ensures, bind, guarded, returns, for_each, for_each-inv, Bool-cases, ltb, not, ◌||◌,
}
use hypatia_multicast.ExpUtil.Text.{Text, split_string_expecting}
use hypatia_multicast.ExpUtil.Numbers.{parse_positive_int64, parse_int64}
use hypatia_multicast.Routing.Arbiter.{ArbiterResult, new_arbiter_result}
use hypatia_multicast.Satellite.Forward.{
  Nodes, Hop, is_minus_two, initial_empty_forwarding_state, set_single_forward_state, check_hop,
  with_loop_back, read_fstate_line, update_forwarding_state, run_updates, single_forward_states,
  decide_hop, decide_single_forward,
}
use hypatia_multicast.Satellite.Forward.Entries.{
  Connects, IsHop, unset, drop, link, check_hop-IsHop,
}

-- Every node has an entry for every target, which is unset, a drop or a link.
abbrev pub IsForwarding : Nodes → List (List Hop) → Type 0
IsForwarding nodes arbiters =
    (node target : ℕ)
    → node < nodes.size
    → target < nodes.size
    → (hops : List Hop) × (hop : Hop) × (get_elem? arbiters node ≡ some hops)
      × (get_elem? hops target ≡ some hop)
      × IsHop nodes node hop

get_elem?-replicate : {A : Type 0} (n i : ℕ) (a : A) → i < n → get_elem? (replicate n a) i ≡ some a
get_elem?-replicate zero i a h = elim h [ ]
get_elem?-replicate (suc n) zero a h = refl
get_elem?-replicate (suc n) (suc i) a h = get_elem?-replicate n i a (omega arith)

initial-IsForwarding :
    (nodes : Nodes) → IsForwarding nodes (initial_empty_forwarding_state nodes.size)
unfolding initial_empty_forwarding_state
initial-IsForwarding nodes node target h k = (
  _,
  _,
  get_elem?-replicate nodes.size node _ h,
  get_elem?-replicate nodes.size target _ k,
  unset refl,
)

-- A row that has got an entry.
set-row :
    (nodes : Nodes) (node target t : ℕ) (arbiter : List Hop) (hop old : Hop)
    → target < length arbiter
    → IsHop nodes node hop
    → get_elem? arbiter t ≡ some old
    → IsHop nodes node old
    → (x : Hop) × (get_elem? (set arbiter target hop) t ≡ some x) × IsHop nodes node x
set-row nodes node target t arbiter hop old lt new e valid = elim (Bool-cases (target == t)) [
  | inl same ↦
      let eq : target ≡ t = (==_iff target t).0 same in
      (
        hop,
        subst (λ k. get_elem? (set arbiter target hop) k ≡ some hop) eq
            (get_elem?-set_self arbiter target hop lt),
        new,
      )
  | inr apart ↦
      (old, get_elem?-set_ne arbiter hop (λ eq. let same = (==_iff target t).1 eq in cc) ∙ e, valid)
]

set-IsForwarding :
    (nodes : Nodes) (arbiters : List (List Hop)) (node target : ℕ) (arbiter : List Hop) (hop : Hop)
    → IsForwarding nodes arbiters
    → get_elem? arbiters node ≡ some arbiter
    → target < length arbiter
    → IsHop nodes node hop
    → IsForwarding nodes (set arbiters node (set arbiter target hop))
set-IsForwarding nodes arbiters node target arbiter hop h at lt new m t in_nodes in_targets =
    elim (Bool-cases (node == m)) [
      | inr apart ↦
          let (hops, x, row, entry, valid) = h m t in_nodes in_targets in
          (
            hops,
            x,
            get_elem?-set_ne arbiters _ (λ eq. let same = (==_iff node m).1 eq in cc) ∙ row,
            entry,
            valid,
          )
      | inl same ↦
          let eq : node ≡ m = (==_iff node m).0 same in
          let (hops, x, row, entry, valid) = h m t in_nodes in_targets in
          let at_m : get_elem? arbiters m ≡ some arbiter =
            subst (λ k. get_elem? arbiters k ≡ some arbiter) eq at in
          let one : hops ≡ arbiter = cc in
          let done =
            set-row nodes m target t arbiter hop x lt (subst (λ k. IsHop nodes k hop) eq new)
              (subst (λ l. get_elem? l t ≡ some x) one entry) valid in
          (
            set arbiter target hop,
            done.0,
            subst
                (λ k.
                  get_elem? (set arbiters node (set arbiter target hop)) k
                  ≡ some (set arbiter target hop))
                eq
                (get_elem?-set_self arbiters node (set arbiter target hop)
                  (get_elem?-lt arbiters node arbiter at)),
            done.1,
            done.2,
          )
    ]

-- What `SetSingleForwardState` does when it returns.
set_single_forward_state-set :
    (arbiter : List Hop) (target : ℕ) (hop : Hop)
    → Ensures
        (λ hops. (target < length arbiter) × (hops ≡ set arbiter target hop))
        (set_single_forward_state arbiter target hop)
unfolding set_single_forward_state
set_single_forward_state-set arbiter target (next, own, next_if) =
    guarded _ assertion _
      λ (allowed : (is_minus_two next || is_minus_two own || is_minus_two next_if) ≡ false).
        guarded (not (ltb target (length arbiter))) undefined _
          λ inside. returns _ (ground (arith, inside), refl)

read_fstate_line-IsForwarding :
    (nodes : Nodes) (arbiters : List (List Hop)) (line : Text)
    → IsForwarding nodes arbiters
    → Ensures (IsForwarding nodes) (read_fstate_line nodes arbiters line)
unfolding read_fstate_line set_single_forward_state
read_fstate_line-IsForwarding nodes arbiters line h =
    bind (split_string_expecting line (b',' ∷ []) 5) _ λ comma_split e.
      bind (or_throw (get_elem? comma_split 0) undefined) _ λ f0 e0.
        bind (parse_positive_int64 f0) _ λ current ec.
          bind (or_throw (get_elem? comma_split 1) undefined) _ λ f1 e1.
            bind (parse_positive_int64 f1) _ λ target et.
              bind (or_throw (get_elem? comma_split 2) undefined) _ λ f2 e2.
                bind (parse_int64 f2) _ λ next en.
                  bind (or_throw (get_elem? comma_split 3) undefined) _ λ f3 e3.
                    bind (parse_int64 f3) _ λ my_if em.
                      bind (or_throw (get_elem? comma_split 4) undefined) _ λ f4 e4.
                        bind (parse_int64 f4) _ λ next_if ei.
                          bind (check_hop nodes current target (next, my_if, next_if)) _
                            λ u checked.
                              bind (or_throw (get_elem? arbiters current) _) _ λ arbiter ea.
                                bind
                                  (set_single_forward_state arbiter target
                                    (with_loop_back (next, my_if, next_if)))
                                  _
                                  λ hops es.
                                    let entry = with_loop_back (next, my_if, next_if) in
                                    let (inside, same) =
                                      (set_single_forward_state-set arbiter target entry).holds hops
                                        es in
                                    let valid =
                                      check_hop-IsHop nodes current target (next, my_if, next_if)
                                        checked in
                                    returns _ (
                                      subst (λ l. IsForwarding nodes (set arbiters current l))
                                        (sym same)
                                        (set-IsForwarding nodes arbiters current target arbiter
                                          entry h (or_throw-eq-ok _ _ ea) inside valid))

update_forwarding_state-IsForwarding :
    (nodes : Nodes) (interval_ns end_time_ns : ℕ) (force_static : Bool) (arbiters : List (List Hop))
    (t : ℕ) (file : Option (List Text))
    → IsForwarding nodes arbiters
    → Ensures
        (λ r. IsForwarding nodes r.0)
        (update_forwarding_state nodes interval_ns end_time_ns force_static arbiters t file)
unfolding update_forwarding_state
update_forwarding_state-IsForwarding nodes interval_ns end_time_ns force_static arbiters t file h =
    bind (or_throw file _) _ λ lines e.
      bind (for_each (read_fstate_line nodes) arbiters lines) _ λ updated eu. returns _ (
        (for_each-inv (IsForwarding nodes) (read_fstate_line nodes)
            (λ a line v. read_fstate_line-IsForwarding nodes a line v) arbiters lines h).holds
          updated eu)

run_updates-IsForwarding :
    (fuel : ℕ) (nodes : Nodes) (interval_ns end_time_ns : ℕ) (force_static : Bool)
    (files : ℕ → Option (List Text)) (arbiters : List (List Hop)) (t : ℕ)
    → IsForwarding nodes arbiters
    → Ensures
        (IsForwarding nodes)
        (run_updates fuel nodes interval_ns end_time_ns force_static files arbiters t)
unfolding run_updates
run_updates-IsForwarding zero nodes interval_ns end_time_ns force_static files arbiters t h =
    returns _ h
run_updates-IsForwarding (suc fuel) nodes interval_ns end_time_ns force_static files arbiters t h =
    bind (update_forwarding_state nodes interval_ns end_time_ns force_static arbiters t (files t)) _
      λ updated e.
        let valid =
          (update_forwarding_state-IsForwarding nodes interval_ns end_time_ns force_static arbiters
              t (files t) h).holds
            updated e in
        go_on updated.1 updated.0 valid (λ a n v.
          run_updates-IsForwarding fuel nodes interval_ns end_time_ns force_static files a n v)
  where
    go_on :
        (next : Option ℕ) (a : List (List Hop))
        → IsForwarding nodes a
        → ((a' : List (List Hop)) (n : ℕ)
            → IsForwarding nodes a'
            → Ensures
                (IsForwarding nodes)
                (run_updates fuel nodes interval_ns end_time_ns force_static files a' n))
        → Ensures (IsForwarding nodes) (elim next [
          | none ↦ ok a
          | some n ↦ run_updates fuel nodes interval_ns end_time_ns force_static files a n
        ])
    go_on none a v ih = returns _ v
    go_on (some n) a v ih = ih a n v

-- A decision: an abort, a drop, or an interface and the address at the other end of its link.
pub data IsDecision (nodes : Nodes) (node : ℕ) (r : Result ArbiterResult) : Type 0 where
  aborts : r ≡ err assertion → IsDecision nodes node r
  drops : r ≡ ok (new_arbiter_result true 0 0) → IsDecision nodes node r
  forwards :
      (next i j : ℕ)
      → r ≡ ok (new_arbiter_result false i (nodes.address next j))
      → next < nodes.size
      → (0 < i) × (i < nodes.n_interfaces node)
      → (0 < j) × (j < nodes.n_interfaces next)
      → Connects nodes node i next j
      → IsDecision nodes node r

IsHop-IsDecision :
    (nodes : Nodes) (node : ℕ) (hop : Hop)
    → IsHop nodes node hop
    → IsDecision nodes node (decide_hop nodes hop)
unfolding decide_hop
IsHop-IsDecision nodes node hop h = elim h [
  | unset e ↦ rebase e (aborts refl)
  | drop e ↦ rebase e (drops refl)
  | link next i j e n a b c ↦ rebase e (forwards next i j refl n a b c)
]
  where
    rebase :
        {x : Hop}
        → hop ≡ x
        → IsDecision nodes node (decide_hop nodes x)
        → IsDecision nodes node (decide_hop nodes hop)
    rebase e = subst (λ x. IsDecision nodes node (decide_hop nodes x)) (sym e)

-- After any number of updates of the forwarding state, each node has an arbiter, which for each
-- target aborts the simulation or drops the packet, or it forwards the packet through an interface
-- of the node to the address of an interface of the next node, where both are of ground-satellite
-- links, or they are the two ends of one inter-satellite link.
pub single_forward_states-IsDecision :
    (updates : ℕ) (nodes : Nodes) (interval_ns end_time_ns : ℕ) (force_static : Bool)
    (files : ℕ → Option (List Text)) (arbiters : List (List Hop)) (node target : ℕ)
    → single_forward_states updates nodes interval_ns end_time_ns force_static files ≡ ok arbiters
    → node < nodes.size
    → target < nodes.size
    → (hops : List Hop) × (get_elem? arbiters node ≡ some hops)
      × IsDecision nodes node (decide_single_forward nodes hops target)
unfolding single_forward_states decide_single_forward
single_forward_states-IsDecision updates nodes interval_ns end_time_ns force_static files arbiters
      node target e h k =
    let valid =
      (run_updates-IsForwarding updates nodes interval_ns end_time_ns force_static files _ 0
          (initial-IsForwarding nodes)).holds
        arbiters e in
    let (hops, hop, row, entry, is_hop) = valid node target h k in
    (hops, row, rw entry (IsHop-IsDecision nodes node hop is_hop))
