-- ===== src/Schedule.antt =====
-- The readers of traffic schedules, in simulator/contrib/basic-sim/helper/apps. Each reads a CSV
-- file line by line; a file that does not exist or cannot be read is `none`.
pub mod TcpFlow
pub mod UdpBurst
pub mod MulticastUdp
pub mod Requests
mod Tests
use hypatia_multicast.Base.{
  ℕ, length, In, inl, inr, sym, subst, suc, ◌+◌, ◌≤◌, ◌≡◌, refl, Bool, List, [], ◌∷◌, ◌++◌, Result,
  arith, undefined, or_throw, get_elem?,
}
use hypatia_multicast.ExpUtil.Text.{Text}

-- What a reader asks of a Topology.
pub record Topology : Type 0 where
  pub is_valid_endpoint : ℕ → Bool
  pub multicast_group_base : ℕ

-- comma_split[i].
abbrev pub field : List Text → ℕ → Result Text
field comma_split i = or_throw (get_elem? comma_split i) undefined

-- The local variables of a reader's loop.
pub record Reading (E : Type 0) : Type 0 where
  pub schedule : List E
  pub line_counter : ℕ
  pub prev_start_time_ns : ℕ

abbrev pub start_reading : {E : Type 0} → Reading E
start_reading = record { schedule = []; line_counter = 0; prev_start_time_ns = 0 }

module _ {E : Type 0} (ident start_time : E → ℕ) (IsValid : E → Type 0) where
  -- Valid entries with the ids k, k + 1, ... below k', that start at p or later in a weakly
  -- ascending order, the last one at p'.
  abbrev pub IsSchedule : ℕ → ℕ → List E → ℕ → ℕ → Type 0
  IsSchedule k p [] k' p' = (k ≡ k') × (p ≡ p')
  IsSchedule k p (e ∷ es) k' p' =
      (ident e ≡ k) × (p ≤ start_time e) × IsValid e × IsSchedule (suc k) (start_time e) es k' p'

  pub IsSchedule-append :
      (k p : ℕ) (es : List E) (k' p' : ℕ) (e : E)
      → IsSchedule k p es k' p'
      → ident e ≡ k'
      → p' ≤ start_time e
      → IsValid e
      → IsSchedule k p (es ++ e ∷ []) (k' + 1) (start_time e)
  IsSchedule-append k p [] k' p' e h i s v =
      (omega (arith, i, h.0), omega (arith, s, h.1), v, (omega (arith, h.0), refl))
  IsSchedule-append k p (x ∷ es) k' p' e h i s v =
      (h.0, h.1, h.2, IsSchedule-append (suc k) (start_time x) es k' p' e h.3 i s v)

  pub IsSchedule-length :
      (k p : ℕ) (es : List E) (k' p' : ℕ) → IsSchedule k p es k' p' → k' ≡ k + length es
  IsSchedule-length k p [] k' p' h = omega (arith, h.0)
  IsSchedule-length k p (x ∷ es) k' p' h =
      omega (arith, IsSchedule-length (suc k) (start_time x) es k' p' h.3)

  pub IsSchedule-In :
      (k p : ℕ) (es : List E) (k' p' : ℕ) (e : E) → IsSchedule k p es k' p' → In e es → IsValid e
  IsSchedule-In k p [] k' p' e h m = absurd m
  IsSchedule-In k p (x ∷ es) k' p' e h (inl same) = subst IsValid (sym same) h.2
  IsSchedule-In k p (x ∷ es) k' p' e h (inr later) =
      IsSchedule-In (suc k) (start_time x) es k' p' e h.3 later

  -- The invariant of a reader's loop.
  abbrev pub ReadsSchedule : Reading E → Type 0
  ReadsSchedule r = IsSchedule 0 0 r.schedule r.line_counter r.prev_start_time_ns
