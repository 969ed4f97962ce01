-- ===== src/Satellite/Forward/Tests.antt =====
-- Two nodes with one interface each to ground-satellite links.
use hypatia_multicast.Base.{
  ℕ, zero, suc, ◌+◌, ◌*◌, ◌≡◌, refl, false, List, [], ◌∷◌, Option, some, ok, arith, get_elem?,
}
use hypatia_multicast.Base.Int.{pos, negsuc}
use hypatia_multicast.ExpUtil.Text.{Text}
use hypatia_multicast.TopologyPtop.{codes}
use hypatia_multicast.Satellite.Forward.{
  Nodes, gsl, Hop, single_forward_states, decide_single_forward,
}
use hypatia_multicast.Satellite.Forward.Decisions.{IsDecision, single_forward_states-IsDecision}

abbrev two_nodes : Nodes
two_nodes = record {
  size = 2;
  n_interfaces = λ node. 2;
  device = λ node i. gsl;
  address = λ node i. node * 256 + i;
}

-- At 0 node 0 sends to node 1; at 10 it drops the packets.
abbrev two_files : ℕ → Option (List Text)
two_files zero = some (codes "0,1,1,0,0" ∷ codes "1,0,0,0,0" ∷ [])
two_files (suc t) = some (codes "0,1,-1,-1,-1" ∷ [])

abbrev two_arbiters : List (List Hop)
two_arbiters =
    ((negsuc 1, negsuc 1, negsuc 1) ∷ (negsuc 0, pos 0, pos 0) ∷ [])
    ∷ ((pos 0, pos 1, pos 1) ∷ (negsuc 1, negsuc 1, negsuc 1) ∷ [])
    ∷ []

two_arbiters-read : single_forward_states 5 two_nodes 10 15 false two_files ≡ ok two_arbiters
unfolding single_forward_states
two_arbiters-read = refl

single_forward_states-IsDecision_example :
    (hops : List Hop) × (get_elem? two_arbiters 1 ≡ some hops)
    × IsDecision two_nodes 1 (decide_single_forward two_nodes hops 0)
single_forward_states-IsDecision_example =
    single_forward_states-IsDecision 5 two_nodes 10 15 false two_files two_arbiters 1 0
      two_arbiters-read (omega arith) (omega arith)
