-- ===== src/Schedule/Requests.antt =====
-- The multicast schedule that a reader returns, as the requests of arbiter-multicast-helper.cc,
-- whose constructor takes it from multicast-udp-schedule-reader.cc.
use hypatia_multicast.Base.{
  ℕ, suc, ap, length, ◌<◌, ◌≤◌, ◌^◌, ◌≡◌, sym, subst, List, [], ◌∷◌, map, some, ok, arith, In, inl,
  inr,
}
use hypatia_multicast.ExpUtil.Text.{Text}
use hypatia_multicast.ExpUtil.Numbers.{Doubles}
use hypatia_multicast.Schedule.{Topology, IsSchedule-length, IsSchedule-In}
use hypatia_multicast.Schedule.MulticastUdp.{
  MulticastUdpInfo, read_multicast_udp_schedule, IsMulticastUdpSchedule, IsMulticastUdp,
  read_multicast_udp_schedule-IsMulticastUdpSchedule,
}
use hypatia_multicast.Routing.Ecmp.{CandidateList}
use hypatia_multicast.Routing.Arbiter.Groups.{first_route}
use hypatia_multicast.Routing.Multicast.{MulticastRequest, RoutingState, cal_global_multicast_state}
use hypatia_multicast.Routing.Multicast.Routes.{routes_of}
use hypatia_multicast.Routing.Multicast.Delivery.{
  group_of, HasInterfaces, DistinctGroups, Delivers, cal_global_multicast_state-Delivers,
}

-- What CalGlobalMulticastState takes of an entry.
abbrev pub to_request : {D : Type 0} → MulticastUdpInfo D → MulticastRequest
to_request e = record {
  udp_burst_id = e.udp_burst_id;
  from_node_id = e.from_node_id;
  to_node_ids = e.to_node_ids;
}

module _ (doubles : Doubles) where
  open doubles use {Double}

  -- The ids of requests from k on are below the counter at the end.
  ids_from :
      (topology : Topology) (end_time k p : ℕ) (es : List (MulticastUdpInfo Double)) (k' p' : ℕ)
      → IsMulticastUdpSchedule doubles topology end_time k p es k' p'
      → (k ≤ k')
        × ((req : MulticastRequest)
            → In req (map to_request es)
            → (k ≤ req.udp_burst_id) × (req.udp_burst_id < k'))
  ids_from topology end_time k p [] k' p' h = (omega (arith, h.0), λ req m. absurd m)
  ids_from topology end_time k p (e ∷ es) k' p' h =
      let (le, rest) = ids_from topology end_time (suc k) e.start_time_ns es k' p' h.3 in
      (
        omega (arith, le),
        λ req m. elim m [
          | inl same ↦
              subst (λ (r : MulticastRequest). (k ≤ r.udp_burst_id) × (r.udp_burst_id < k'))
                (sym same) (omega (arith, h.0), omega (arith, h.0, le))
          | inr later ↦ (omega (arith, (rest req later).0), (rest req later).1)
        ],
      )

  -- Fewer than 2^32 requests have distinct groups.
  schedule-DistinctGroups :
      (base : ℕ) (topology : Topology) (end_time k p : ℕ) (es : List (MulticastUdpInfo Double))
      (k' p' : ℕ)
      → k' ≤ 2 ^ 32
      → IsMulticastUdpSchedule doubles topology end_time k p es k' p'
      → DistinctGroups base (map to_request es)
  schedule-DistinctGroups base topology end_time k p [] k' p' few h = tt
  schedule-DistinctGroups base topology end_time k p (e ∷ es) k' p' few h =
      let ids = (ids_from topology end_time (suc k) e.start_time_ns es k' p' h.3).1 in
      (
        λ other m same. let (lo, hi) = ids other m in omega (arith, same, lo, hi, h.0, few),
        schedule-DistinctGroups base topology end_time (suc k) e.start_time_ns es k' p' few h.3,
      )

  In-to_request :
      (e : MulticastUdpInfo Double) (es : List (MulticastUdpInfo Double))
      → In e es
      → In (to_request e) (map to_request es)
  In-to_request e [] m = absurd m
  In-to_request e (x ∷ es) (inl same) = inl (ap to_request same)
  In-to_request e (x ∷ es) (inr later) = inr (In-to_request e es later)

  -- Of a multicast schedule that the reader returns, with at most 2^32 entries, if the routes are
  -- calculated from it for arbiters without routes, and no first candidate stands behind interface
  -- 0, then the packets that an entry's source sends to the entry's group are delivered to each
  -- member of the entry.
  pub read_multicast_udp_schedule-Delivers :
      (topology : Topology) (end_time : ℕ) (lines : List Text)
      (schedule : List (MulticastUdpInfo Double)) (local_address : ℕ → ℕ → ℕ) (ecmp : CandidateList)
      (ifs : List (List ℕ)) (s s' : RoutingState)
      → read_multicast_udp_schedule doubles (some lines) topology end_time ≡ ok schedule
      → length schedule ≤ 2 ^ 32
      → HasInterfaces ecmp ifs
      → ((x : ℕ) → routes_of s x ≡ [])
      → cal_global_multicast_state local_address topology.multicast_group_base ecmp ifs
          (map to_request schedule)
          s
        ≡ ok s'
      → (e : MulticastUdpInfo Double) → In e schedule
      → (dst : ℕ) → In dst e.to_node_ids
      → Delivers ifs s' e.from_node_id e.multicast_group e.from_node_id dst
  unfolding first_route
  read_multicast_udp_schedule-Delivers topology end_time lines schedule local_address ecmp ifs s s'
        read few nonzero empty routed e m dst d =
      let base = topology.multicast_group_base in
      let (k, p, h) =
        read_multicast_udp_schedule-IsMulticastUdpSchedule doubles topology end_time lines schedule
          read in
      let count =
        IsSchedule-length _ _ (IsMulticastUdp doubles topology end_time) 0 0 schedule k p h in
      let valid =
        IsSchedule-In _ _ (IsMulticastUdp doubles topology end_time) 0 0 schedule k p e h m in
      subst (λ g. Delivers ifs s' e.from_node_id g e.from_node_id dst) (sym valid.group)
        (cal_global_multicast_state-Delivers local_address base ecmp ifs (map to_request schedule) s
          s' routed nonzero
          (schedule-DistinctGroups base topology end_time 0 0 schedule k p
            (omega (arith, count, few)) h)
          (λ req i x. ap (first_route (group_of base req)) (empty x)) (to_request e)
          (In-to_request e schedule m) dst d)
