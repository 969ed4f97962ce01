-- ===== src/TopologyPtop/Selectors.antt =====
-- simulator/contrib/basic-sim/model/core/topology-ptop-queue-selector-default.cc and
-- topology-ptop-tc-qdisc-selector-default.cc: what the text of a queue and of a traffic control
-- discipline may be. ns-3's factories and helpers are given by what they are set to.
use hypatia_multicast.Base.{
  ℕ, ◌-◌, ◌/◌, [], ◌∷◌, Result, ok, err, ◌>>=◌, ◌>>◌, if◌then◌else◌, not, ◌&&◌, runtime_error,
  throw_if, length,
}
use hypatia_multicast.ExpUtil.Text.{Text, starts_with, ends_with, substr, text_eq}
use hypatia_multicast.ExpUtil.Numbers.{parse_geq_one_int64}
use hypatia_multicast.TopologyPtop.{codes}

-- A drop-tail queue, by the text of its maximum size: "100p" or "100000B".
unfoldable pub parse_queue_value : Text → Result Text
unfolding starts_with ends_with parse_geq_one_int64
parse_queue_value value =
    if starts_with value (codes "drop_tail(") && ends_with value (b')' ∷ [])
    then (do
      let size = substr 10 (length value - 11) value
      throw_if (not (ends_with size (b'p' ∷ [])) && not (ends_with size (b'B' ∷ []))) runtime_error
      count ← parse_geq_one_int64 (substr 0 (length size - 1) size)
      ok size)
    else err runtime_error

pub data Qdisc : Type 0 where
  disabled default : Qdisc
  fq_codel : (interval_ns target_ns : ℕ) → Qdisc

-- The worst-case RTT is an estimate in doubles, and is given in nanoseconds.
unfoldable pub parse_tc_qdisc_value : ℕ → Text → Result Qdisc
unfolding text_eq
parse_tc_qdisc_value worst_case_rtt_ns value =
    if text_eq value (codes "disabled")
    then ok disabled
    else if text_eq value (codes "default")
    then ok default
    else if text_eq value (codes "fq_codel_better_rtt")
    then ok (fq_codel worst_case_rtt_ns (worst_case_rtt_ns / 20))
    else err runtime_error
