-- ===== src/Schedule/UdpBurst.antt =====
-- simulator/contrib/basic-sim/helper/apps/udp-burst-schedule-reader.cc. The rate is a double of
-- `Doubles`.
use hypatia_multicast.Base.{
  ℕ, false, ◌+◌, ◌<◌, ◌≡◌, refl, subst, ◌≢◌, true, List, [], ◌∷◌, ◌++◌, Option, some, none, Result,
  ok, err, ◌>>=◌, ◌>>◌, not, for_each, arith, leb, ltb, ◌==◌, invalid_argument, runtime_error,
  throw_if, >>=-eq-ok, Ensures, bind, guarded, returns, for_each-inv,
}
use hypatia_multicast.ExpUtil.Text.{Text, split_string_expecting}
use hypatia_multicast.ExpUtil.Numbers.{
  Doubles, parse_positive_int64, parse_positive_double, parse_positive_double_nonnegative,
}
use hypatia_multicast.Schedule.{
  Topology, field, Reading, start_reading, IsSchedule, IsSchedule-append,
}

pub record UdpBurstInfo (Double : Type 0) : Type 0 where
  pub udp_burst_id : ℕ
  pub from_node_id : ℕ
  pub to_node_id : ℕ
  pub target_rate_megabit_per_s : Double
  pub start_time_ns : ℕ
  pub duration_ns : ℕ
  pub additional_parameters : Text
  pub metadata : Text

module _ (doubles : Doubles) where
  open doubles use {Double, is_negative, is_zero}

  -- The body of the loop over the lines.
  unfoldable pub read_udp_burst_line :
      Topology → ℕ → Reading (UdpBurstInfo Double) → Text → Result (Reading (UdpBurstInfo Double))
  read_udp_burst_line topology simulation_end_time_ns r line = do
    comma_split ← split_string_expecting line (b',' ∷ []) 8
    id_text ← field comma_split 0
    udp_burst_id ← parse_positive_int64 id_text
    throw_if (not (udp_burst_id == r.line_counter)) invalid_argument
    from_text ← field comma_split 1
    from_node_id ← parse_positive_int64 from_text
    to_text ← field comma_split 2
    to_node_id ← parse_positive_int64 to_text
    rate_text ← field comma_split 3
    rate ← parse_positive_double doubles rate_text
    start_text ← field comma_split 4
    start_time_ns ← parse_positive_int64 start_text
    duration_text ← field comma_split 5
    duration_ns ← parse_positive_int64 duration_text
    additional_parameters ← field comma_split 6
    metadata ← field comma_split 7
    throw_if (is_zero rate) invalid_argument
    throw_if (ltb start_time_ns r.prev_start_time_ns) invalid_argument
    throw_if (from_node_id == to_node_id) invalid_argument
    throw_if (not (topology.is_valid_endpoint from_node_id)) invalid_argument
    throw_if (not (topology.is_valid_endpoint to_node_id)) invalid_argument
    throw_if (leb simulation_end_time_ns start_time_ns) invalid_argument
    ok (record {
      schedule =
          r.schedule
          ++ record {
            udp_burst_id = udp_burst_id;
            from_node_id = from_node_id;
            to_node_id = to_node_id;
            target_rate_megabit_per_s = rate;
            start_time_ns = start_time_ns;
            duration_ns = duration_ns;
            additional_parameters = additional_parameters;
            metadata = metadata;
          }
            ∷ [];
      line_counter = r.line_counter + 1;
      prev_start_time_ns = start_time_ns;
    })

  unfoldable pub read_udp_burst_schedule :
      Option (List Text) → Topology → ℕ → Result (List (UdpBurstInfo Double))
  unfolding for_each read_udp_burst_line split_string_expecting parse_positive_int64
  read_udp_burst_schedule none topology simulation_end_time_ns = err runtime_error
  read_udp_burst_schedule (some lines) topology simulation_end_time_ns = do
    r ← for_each (read_udp_burst_line topology simulation_end_time_ns) start_reading lines
    ok r.schedule

  -- What holds of each entry.
  pub record IsUdpBurst (topology : Topology) (end_time : ℕ) (e : UdpBurstInfo Double)
      : Type 0 where
    pub distinct : e.from_node_id ≢ e.to_node_id
    pub from_endpoint : topology.is_valid_endpoint e.from_node_id ≡ true
    pub to_endpoint : topology.is_valid_endpoint e.to_node_id ≡ true
    pub has_rate : is_zero e.target_rate_megabit_per_s ≡ false
    pub rate_not_negative : is_negative e.target_rate_megabit_per_s ≡ false
    pub before_end : e.start_time_ns < end_time

  abbrev pub IsUdpBurstSchedule : Topology → ℕ → ℕ → ℕ → List (UdpBurstInfo Double) → ℕ → ℕ → Type 0
  IsUdpBurstSchedule topology end_time =
      IsSchedule (λ (e : UdpBurstInfo Double). e.udp_burst_id) (λ e. e.start_time_ns)
        (IsUdpBurst topology end_time)

  read_line-ReadsSchedule :
      (topology : Topology) (end_time : ℕ) (r : Reading (UdpBurstInfo Double)) (line : Text)
      → IsUdpBurstSchedule topology end_time 0 0 r.schedule r.line_counter r.prev_start_time_ns
      → Ensures
          (λ (q : Reading (UdpBurstInfo Double)).
            IsUdpBurstSchedule topology end_time 0 0 q.schedule q.line_counter q.prev_start_time_ns)
          (read_udp_burst_line topology end_time r line)
  unfolding read_udp_burst_line
  read_line-ReadsSchedule topology end_time r line h =
      bind (split_string_expecting line (b',' ∷ []) 8) _ λ split _. bind (field split 0) _ λ t0 _.
        bind (parse_positive_int64 t0) _ λ ident _.
          guarded (not (ident == r.line_counter)) invalid_argument _ λ numbered.
            bind (field split 1) _ λ t1 _. bind (parse_positive_int64 t1) _ λ from _.
              bind (field split 2) _ λ t2 _. bind (parse_positive_int64 t2) _ λ to _.
                bind (field split 3) _ λ t3 _.
                  bind (parse_positive_double doubles t3) _ λ rate parsed.
                    bind (field split 4) _ λ t4 _. bind (parse_positive_int64 t4) _ λ start _.
                      bind (field split 5) _ λ t5 _. bind (parse_positive_int64 t5) _ λ duration _.
                        bind (field split 6) _ λ t6 _. bind (field split 7) _ λ t7 _.
                          guarded (is_zero rate) invalid_argument _ λ zero_rate.
                            guarded (ltb start r.prev_start_time_ns) invalid_argument _ λ ascending.
                              guarded (from == to) invalid_argument _ λ apart.
                                guarded (not (topology.is_valid_endpoint from)) invalid_argument _
                                  λ from_ok.
                                    guarded (not (topology.is_valid_endpoint to)) invalid_argument _
                                      λ to_ok.
                                        guarded (leb end_time start) invalid_argument _ λ before.
                                          returns _ (
                                            IsSchedule-append
                                              (λ (e : UdpBurstInfo Double). e.udp_burst_id)
                                              (λ e. e.start_time_ns) (IsUdpBurst topology end_time)
                                              0 0 r.schedule r.line_counter r.prev_start_time_ns _ h
                                              (ground arith) (ground arith)
                                              (record {
                                                distinct = ground arith;
                                                from_endpoint = ground arith;
                                                to_endpoint = ground arith;
                                                has_rate = zero_rate;
                                                rate_not_negative =
                                                    (parse_positive_double_nonnegative doubles
                                                        t3).holds
                                                      rate parsed;
                                                before_end = ground arith;
                                              }))

  -- A schedule that the reader returns has the ids 0, 1, 2, ..., its start times ascend weakly, and
  -- each burst joins two distinct valid endpoints, has a rate that is neither zero nor negative,
  -- and starts before the end of the simulation.
  pub read_udp_burst_schedule-IsUdpBurstSchedule :
      (topology : Topology) (end_time : ℕ) (lines : List Text)
      (schedule : List (UdpBurstInfo Double))
      → read_udp_burst_schedule (some lines) topology end_time ≡ ok schedule
      → (k p : ℕ) × IsUdpBurstSchedule topology end_time 0 0 schedule k p
  unfolding read_udp_burst_schedule
  read_udp_burst_schedule-IsUdpBurstSchedule topology end_time lines schedule e =
      let (r, e1, e2) =
        >>=-eq-ok (for_each (read_udp_burst_line topology end_time) start_reading lines) _ e in
      let h =
        (for_each-inv _ (read_udp_burst_line topology end_time)
            (λ q line hq. read_line-ReadsSchedule topology end_time q line hq) start_reading lines
            (refl, refl)).holds
          r e1 in
      let same : r.schedule ≡ schedule = cc in
      (
        r.line_counter,
        r.prev_start_time_ns,
        subst
            (λ es. IsUdpBurstSchedule topology end_time 0 0 es r.line_counter r.prev_start_time_ns)
            same h,
      )
