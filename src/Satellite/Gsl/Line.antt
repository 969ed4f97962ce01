-- ===== src/Satellite/Gsl/Line.antt =====
-- What gsl-net-device.cc does to its line over a run, and gsl-channel.cc to what it is handed.
use hypatia_multicast.Base.{ℕ, ◌+◌, ◌≤◌, ◌≡◌, sym, subst, List, [], ◌∷◌, ◌++◌, map, arith}
use hypatia_multicast.Satellite.{Packets, Queues, IsFifo, Transmission}
use hypatia_multicast.Satellite.Server.{IsSpaced}
use hypatia_multicast.Satellite.Gsl.{GslNetDevice}
use hypatia_multicast.Satellite.Gsl.Channel.{Port}
use hypatia_multicast.Satellite.Gsl.Refines.{sending_of}
use hypatia_multicast.Satellite.Gsl.Runs.{Run, Run-IsServer}

-- The time that these transmissions and the gaps after them take.
abbrev pub line_time : {P D : Type 0} → ℕ → List (Transmission P D) → ℕ
line_time gap_ns [] = 0
line_time gap_ns (t ∷ ts) = (t.tx_time_ns + gap_ns) + line_time gap_ns ts

IsSpaced-line_time :
    {P D : Type 0} (gap_ns from : ℕ) (ts : List (Transmission P D)) (u : Transmission P D)
    (rest : List (Transmission P D))
    → IsSpaced from (map (sending_of gap_ns) (ts ++ u ∷ rest))
    → from + line_time gap_ns ts ≤ u.start_ns
IsSpaced-line_time gap_ns from [] u rest h = omega (arith, h.0)
IsSpaced-line_time gap_ns from (t ∷ ts) u rest h =
    let later = IsSpaced-line_time gap_ns (t.start_ns + (t.tx_time_ns + gap_ns)) ts u rest h.1 in
    omega (arith, h.0, later)

IsSpaced-between :
    {P D : Type 0} (gap_ns from : ℕ) (before : List (Transmission P D)) (t : Transmission P D)
    (between : List (Transmission P D)) (u : Transmission P D) (rest : List (Transmission P D))
    → IsSpaced from (map (sending_of gap_ns) (before ++ t ∷ (between ++ u ∷ rest)))
    → t.start_ns + line_time gap_ns (t ∷ between) ≤ u.start_ns
IsSpaced-between gap_ns from [] t between u rest h =
    let later =
      IsSpaced-line_time gap_ns (t.start_ns + (t.tx_time_ns + gap_ns)) between u rest h.1 in
    omega (arith, later)
IsSpaced-between gap_ns from (b ∷ before) t between u rest h =
    IsSpaced-between gap_ns (b.start_ns + (b.tx_time_ns + gap_ns)) before t between u rest h.1

module _ (pk : Packets) (qs : Queues pk.Packet) {D : Type 0} (port : Port D)
    (fifo : IsFifo qs) where
  -- If the queue is first in, first out, then in every run, between the starts of any two
  -- transmissions of the device passes at least the time that the first one and those between the two
  -- take at their rates, with the gap after each.
  pub Run-line_rate :
      {now : ℕ} {accepted : List (pk.Packet × ℕ)} (d : GslNetDevice pk.Packet qs.Queue D)
      (before : List (Transmission pk.Packet D)) (t : Transmission pk.Packet D)
      (between : List (Transmission pk.Packet D)) (u : Transmission pk.Packet D)
      (rest : List (Transmission pk.Packet D))
      → Run pk qs port now accepted d
      → d.transmitted ≡ before ++ t ∷ (between ++ u ∷ rest)
      → t.start_ns + line_time d.interframe_gap_ns (t ∷ between) ≤ u.start_ns
  Run-line_rate d before t between u rest r e =
      let h = Run-IsServer pk qs port fifo r in
      let spaced = subst (IsSpaced 0) (sym h.implements.sent) h.serving.spaced in
      IsSpaced-between d.interframe_gap_ns 0 before t between u rest
        (subst (λ l. IsSpaced 0 (map (sending_of d.interframe_gap_ns) l)) e spaced)
