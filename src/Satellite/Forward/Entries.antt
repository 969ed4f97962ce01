-- ===== src/Satellite/Forward/Entries.antt =====
-- The entries that arbiter-single-forward-helper.cc sets: each is unset, a drop, or a link between
-- two devices that belong together.
use hypatia_multicast.Base.{
  ℕ, zero, suc, ◌+◌, ◌<◌, ◌≡◌, refl, ◌⊎◌, inl, inr, Bool, true, false, ok, if◌then◌else◌, not, ◌&&◌,
  ◌||◌, ltb, ◌==◌, ==_iff, assertion, arith, passed, throw_if-eq-ok,
}
use hypatia_multicast.Base.Int.{ℤ, pos, negsuc, ◌+ℤ◌, ltb_ℤ}
use hypatia_multicast.Satellite.Forward.{
  Device, gsl, other, isl, Nodes, Hop, is_minus_one, interface_exists, is_isl, check_counterpart,
  check_devices, check_link, check_hop, with_loop_back,
}

-- Two devices that a packet can go between: both of ground-satellite links, or the two ends of an
-- inter-satellite link.
pub data Connects (nodes : Nodes) (node i next j : ℕ) : Type 0 where
  by_gsl : nodes.device node i ≡ gsl → nodes.device next j ≡ gsl → Connects nodes node i next j
  by_isl :
      (device0 device1 : ℕ × ℕ)
      → nodes.device node i ≡ isl device0 device1
      → is_isl (nodes.device next j) ≡ true
      → (if device0.0 == node then device1 else device0) ≡ (next, j)
      → Connects nodes node i next j

pub data IsHop (nodes : Nodes) (node : ℕ) (hop : Hop) : Type 0 where
  unset : hop ≡ (negsuc 1, negsuc 1, negsuc 1) → IsHop nodes node hop
  drop : hop ≡ (negsuc 0, pos 0, pos 0) → IsHop nodes node hop
  link :
      (next i j : ℕ)
      → hop ≡ (pos next, pos i, pos j)
      → next < nodes.size
      → (0 < i) × (i < nodes.n_interfaces node)
      → (0 < j) × (j < nodes.n_interfaces next)
      → Connects nodes node i next j
      → IsHop nodes node hop

not-false : (b : Bool) → not b ≡ false → b ≡ true
not-false true e = refl
not-false false e = cc

pair-eq : (p : ℕ × ℕ) (a b : ℕ) → p.0 ≡ a → p.1 ≡ b → p ≡ (a, b)
pair-eq p a b e f = rw⁻¹ (e, f) refl

-- What the checks of two devices establish.
IsConnection : Device → Device → ℕ → ℕ → ℕ → Type 0
IsConnection source destination node next j =
    ((source ≡ gsl) × (destination ≡ gsl))
    ⊎ ((device0 : ℕ × ℕ) × (device1 : ℕ × ℕ) × (source ≡ isl device0 device1)
        × (is_isl destination ≡ true)
        × ((if device0.0 == node then device1 else device0) ≡ (next, j)))

check_devices-IsConnection :
    (source destination : Device) (node next j : ℕ)
    → check_devices source destination node next j ≡ ok tt
    → IsConnection source destination node next j
unfolding check_devices check_counterpart IsConnection
check_devices-IsConnection gsl gsl node next j e = inl (refl, refl)
check_devices-IsConnection gsl other node next j e = cc
check_devices-IsConnection gsl (isl a b) node next j e = cc
check_devices-IsConnection other d node next j e = cc
check_devices-IsConnection (isl a b) gsl node next j e = cc
check_devices-IsConnection (isl a b) other node next j e = cc
check_devices-IsConnection (isl a b) (isl c d) node next j e =
    let counterpart : check_counterpart (isl a b) node next j ≡ ok tt = e in
    let (at_node, others) = passed _ _ _ counterpart in
    let at_if = throw_if-eq-ok _ _ others in
    inr (
      a,
      b,
      refl,
      refl,
      pair-eq _ next j ((==_iff _ _).0 (not-false _ at_node)) ((==_iff _ _).0 (not-false _ at_if)),
    )

check_devices-Connects :
    (nodes : Nodes) (node next i j : ℕ)
    → check_devices (nodes.device node i) (nodes.device next j) node next j ≡ ok tt
    → Connects nodes node i next j
unfolding IsConnection
check_devices-Connects nodes node next i j e =
    elim (check_devices-IsConnection (nodes.device node i) (nodes.device next j) node next j e) [
      | inl h ↦ by_gsl h.0 h.1
      | inr h ↦ by_isl h.0 h.1 h.2 h.3 h.4
    ]

-- What the checks of an entry establish.
pub check_hop-IsHop :
    (nodes : Nodes) (node target : ℕ) (hop : Hop)
    → check_hop nodes node target hop ≡ ok tt
    → IsHop nodes node (with_loop_back hop)
unfolding check_hop check_link with_loop_back ◌+ℤ◌
check_hop-IsHop nodes node target (next, i, j) e =
    let (in_nodes, e1) = passed (not (ltb node nodes.size)) assertion _ e in
    let (in_targets, e2) = passed (not (ltb target nodes.size)) assertion _ e1 in
    let (in_range, e3) = passed _ assertion _ e2 in
    let (all_or_none, e4) = passed _ assertion _ e3 in
    let (own_exists, e5) = passed _ assertion _ e4 in
    let (next_exists, connected) = passed _ assertion _ e5 in
    by_signs next i j in_range all_or_none own_exists next_exists connected
  where
    pos_sum :
        {n : ℕ} (m k : ℕ) → with_loop_back (pos n, pos m, pos k) ≡ (pos n, pos (1 + m), pos (1 + k))
    pos_sum m k = ground arith

    by_signs :
        (next i j : ℤ)
        → (ltb_ℤ next (negsuc 0) || not (ltb_ℤ next (pos nodes.size))) ≡ false
        → (not (is_minus_one next && is_minus_one i && is_minus_one j)
            && not (not (is_minus_one next) && not (is_minus_one i) && not (is_minus_one j)))
          ≡ false
        → not (interface_exists nodes (pos node) i) ≡ false
        → not (interface_exists nodes next j) ≡ false
        → check_link nodes node (next, i, j) ≡ ok tt
        → IsHop nodes node (with_loop_back (next, i, j))
    by_signs (negsuc (suc n)) i j range drops own far conn =
        let below : ltb 0 (suc n) ≡ true = ground arith in
        let out : true ≡ false = rw below at range in cc
    by_signs (negsuc zero) (negsuc zero) (negsuc zero) range drops own far conn = drop refl
    by_signs (negsuc zero) (negsuc zero) (pos k) range drops own far conn = cc
    by_signs (negsuc zero) (negsuc zero) (negsuc (suc k)) range drops own far conn = cc
    by_signs (negsuc zero) (negsuc (suc m)) j range drops own far conn = cc
    by_signs (negsuc zero) (pos m) j range drops own far conn = cc
    by_signs (pos n) (negsuc zero) j range drops own far conn = cc
    by_signs (pos n) (negsuc (suc m)) j range drops own far conn = cc
    by_signs (pos n) (pos m) (negsuc zero) range drops own far conn = cc
    by_signs (pos n) (pos m) (negsuc (suc k)) range drops own far conn = cc
    by_signs (pos n) (pos m) (pos k) range drops own far conn =
        link n (1 + m) (1 + k) (pos_sum m k) (ground (arith, range))
          (omega arith, ground (arith, own)) (omega arith, ground (arith, far))
          (check_devices-Connects nodes node n (1 + m) (1 + k) conn)
