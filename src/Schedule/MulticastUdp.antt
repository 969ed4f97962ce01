-- ===== src/Schedule/MulticastUdp.antt =====
-- simulator/contrib/basic-sim/helper/apps/multicast-udp-schedule-reader.cc. The set of members is
-- an ascending list; the rate is a double of `Doubles`.
use hypatia_multicast.Base.{
  ℕ, false, Bool, ◌%◌, ◌^◌, ◌||◌, In, insert_set, Bool-cases, inl, inr, ◌+◌, ◌<◌, ◌≡◌, refl, subst,
  ap, ◌∙◌, true, List, [], ◌∷◌, ◌++◌, Option, some, none, Result, ok, err, ◌>>=◌, ◌>>◌, not,
  for_each, arith, leb, ltb, ◌==◌, invalid_argument, runtime_error, undefined, throw_if, or_throw,
  >>=-eq-ok, Ensures, bind, guarded, returns, for_each-inv,
}
use hypatia_multicast.ExpUtil.Text.{Text, split_string_expecting}
use hypatia_multicast.ExpUtil.Numbers.{
  Doubles, parse_positive_int64, parse_positive_double, parse_positive_double_nonnegative,
}
use hypatia_multicast.Schedule.{
  Topology, field, Reading, start_reading, IsSchedule, IsSchedule-append,
}

pub record MulticastUdpInfo (Double : Type 0) : Type 0 where
  pub udp_burst_id : ℕ
  pub from_node_id : ℕ
  pub to_node_ids : List ℕ
  pub target_rate_megabit_per_s : Double
  pub start_time_ns : ℕ
  pub duration_ns : ℕ
  pub additional_parameters : Text
  pub metadata : Text
  pub multicast_group : ℕ

-- std::set::find.
unfoldable pub contains : ℕ → List ℕ → Bool
contains x [] = false
contains x (y ∷ ys) = x == y || contains x ys

contains-In : (x : ℕ) (ys : List ℕ) → contains x ys ≡ false → In x ys → ⊥
unfolding contains
contains-In x [] e m = m
contains-In x (y ∷ ys) e m = ground (arith, contains-In x ys)

-- The loop that checks the members.
unfoldable pub check_members : (ℕ → Bool) → List ℕ → Result (Unit {0})
check_members valid [] = ok tt
check_members valid (x ∷ xs) = throw_if (not (valid x)) invalid_argument >> check_members valid xs

check_members-valid :
    (valid : ℕ → Bool) (xs : List ℕ) {u : Unit {0}}
    → check_members valid xs ≡ ok u
    → (x : ℕ) → In x xs
    → valid x ≡ true
unfolding check_members
check_members-valid valid [] e x m = absurd m
check_members-valid valid (y ∷ ys) e x m = elim (Bool-cases (valid y)) [
  | inl good ↦ elim m [
    | inl same ↦ ap valid same ∙ good
    | inr later ↦ check_members-valid valid ys (rw (good, check_members) at e) x later
  ]
  | inr bad ↦ absurd (ground arith)
]

module _ (doubles : Doubles) where
  open doubles use {Double, is_negative, is_zero, truncate}

  -- The body of the loop over the members of a group: the id is read as a double and
  -- converted to int64_t, which is undefined for NaN and for a double that is too large.
  unfoldable pub add_member : List ℕ → Text → Result (List ℕ)
  unfolding insert_set
  add_member members str = do
    v ← parse_positive_double doubles str
    id ← or_throw (truncate v) undefined
    ok (insert_set id members)

  -- The body of the loop over the lines. `split_string` checks that there are num_mem members.
  unfoldable pub read_multicast_udp_line :
      Topology
      → ℕ
      → Reading (MulticastUdpInfo Double)
      → Text
      → Result (Reading (MulticastUdpInfo Double))
  read_multicast_udp_line topology simulation_end_time_ns r line = do
    comma_split ← split_string_expecting line (b',' ∷ []) 9
    id_text ← field comma_split 0
    udp_burst_id ← parse_positive_int64 id_text
    throw_if (not (udp_burst_id == r.line_counter)) invalid_argument
    from_text ← field comma_split 1
    from_node_id ← parse_positive_int64 from_text
    num_text ← field comma_split 2
    num_mem ← parse_positive_int64 num_text
    to_node_ids_str ← field comma_split 3
    space_split ← split_string_expecting to_node_ids_str (b' ' ∷ []) num_mem
    to_node_ids ← for_each add_member [] space_split
    rate_text ← field comma_split 4
    rate ← parse_positive_double doubles rate_text
    start_text ← field comma_split 5
    start_time_ns ← parse_positive_int64 start_text
    duration_text ← field comma_split 6
    duration_ns ← parse_positive_int64 duration_text
    additional_parameters ← field comma_split 7
    metadata ← field comma_split 8
    throw_if (is_zero rate) invalid_argument
    throw_if (ltb start_time_ns r.prev_start_time_ns) invalid_argument
    throw_if (contains from_node_id to_node_ids) invalid_argument
    throw_if (not (topology.is_valid_endpoint from_node_id)) invalid_argument
    check_members topology.is_valid_endpoint to_node_ids
    throw_if (leb simulation_end_time_ns start_time_ns) invalid_argument
    ok (record {
      schedule =
          r.schedule
          ++ record {
            udp_burst_id = udp_burst_id;
            from_node_id = from_node_id;
            to_node_ids = to_node_ids;
            target_rate_megabit_per_s = rate;
            start_time_ns = start_time_ns;
            duration_ns = duration_ns;
            additional_parameters = additional_parameters;
            metadata = metadata;
            multicast_group = (topology.multicast_group_base + udp_burst_id) % 2 ^ 32;
          }
            ∷ [];
      line_counter = r.line_counter + 1;
      prev_start_time_ns = start_time_ns;
    })

  unfoldable pub read_multicast_udp_schedule :
      Option (List Text) → Topology → ℕ → Result (List (MulticastUdpInfo Double))
  unfolding for_each read_multicast_udp_line add_member contains check_members
      split_string_expecting parse_positive_int64
  read_multicast_udp_schedule none topology simulation_end_time_ns = err runtime_error
  read_multicast_udp_schedule (some lines) topology simulation_end_time_ns = do
    r ← for_each (read_multicast_udp_line topology simulation_end_time_ns) start_reading lines
    ok r.schedule

  -- What holds of each entry.
  pub record IsMulticastUdp (topology : Topology) (end_time : ℕ) (e : MulticastUdpInfo Double)
      : Type 0 where
    pub group : e.multicast_group ≡ (topology.multicast_group_base + e.udp_burst_id) % 2 ^ 32
    pub not_member : In e.from_node_id e.to_node_ids → ⊥
    pub from_endpoint : topology.is_valid_endpoint e.from_node_id ≡ true
    pub members : (x : ℕ) → In x e.to_node_ids → topology.is_valid_endpoint x ≡ true
    pub has_rate : is_zero e.target_rate_megabit_per_s ≡ false
    pub rate_not_negative : is_negative e.target_rate_megabit_per_s ≡ false
    pub before_end : e.start_time_ns < end_time

  abbrev pub IsMulticastUdpSchedule :
      Topology → ℕ → ℕ → ℕ → List (MulticastUdpInfo Double) → ℕ → ℕ → Type 0
  IsMulticastUdpSchedule topology end_time =
      IsSchedule (λ (e : MulticastUdpInfo Double). e.udp_burst_id) (λ e. e.start_time_ns)
        (IsMulticastUdp topology end_time)

  read_line-ReadsSchedule :
      (topology : Topology) (end_time : ℕ) (r : Reading (MulticastUdpInfo Double)) (line : Text)
      → IsMulticastUdpSchedule topology end_time 0 0 r.schedule r.line_counter r.prev_start_time_ns
      → Ensures
          (λ (q : Reading (MulticastUdpInfo Double)).
            IsMulticastUdpSchedule topology end_time 0 0 q.schedule q.line_counter
              q.prev_start_time_ns)
          (read_multicast_udp_line topology end_time r line)
  unfolding read_multicast_udp_line
  read_line-ReadsSchedule topology end_time r line h =
      bind (split_string_expecting line (b',' ∷ []) 9) _ λ split _. bind (field split 0) _ λ t0 _.
        bind (parse_positive_int64 t0) _ λ ident _.
          guarded (not (ident == r.line_counter)) invalid_argument _ λ numbered.
            bind (field split 1) _ λ t1 _. bind (parse_positive_int64 t1) _ λ from _.
              bind (field split 2) _ λ t2 _. bind (parse_positive_int64 t2) _ λ num _.
                bind (field split 3) _ λ t3 _.
                  bind (split_string_expecting t3 (b' ' ∷ []) num) _ λ texts _.
                    bind (for_each add_member [] texts) _ λ to _. bind (field split 4) _ λ t4 _.
                      bind (parse_positive_double doubles t4) _ λ rate parsed.
                        bind (field split 5) _ λ t5 _. bind (parse_positive_int64 t5) _ λ start _.
                          bind (field split 6) _ λ t6 _.
                            bind (parse_positive_int64 t6) _ λ duration _.
                              bind (field split 7) _ λ t7 _. bind (field split 8) _ λ t8 _.
                                guarded (is_zero rate) invalid_argument _ λ zero_rate.
                                  guarded (ltb start r.prev_start_time_ns) invalid_argument _
                                    λ ascending.
                                      guarded (contains from to) invalid_argument _ λ apart.
                                        guarded (not (topology.is_valid_endpoint from))
                                          invalid_argument _
                                          λ from_ok.
                                            bind (check_members topology.is_valid_endpoint to) _
                                              λ u to_ok.
                                                guarded (leb end_time start) invalid_argument _
                                                  λ before. returns _ (
                                                    IsSchedule-append
                                                      (λ (e : MulticastUdpInfo Double).
                                                        e.udp_burst_id)
                                                      (λ e. e.start_time_ns)
                                                      (IsMulticastUdp topology end_time) 0 0
                                                      r.schedule r.line_counter r.prev_start_time_ns
                                                      _ h (ground arith) (ground arith)
                                                      (record {
                                                        group = refl;
                                                        not_member = contains-In from to apart;
                                                        from_endpoint = ground arith;
                                                        members =
                                                            check_members-valid
                                                            topology.is_valid_endpoint to to_ok;
                                                        has_rate = zero_rate;
                                                        rate_not_negative =
                                                            (parse_positive_double_nonnegative
                                                            doubles t4).holds
                                                            rate parsed;
                                                        before_end = ground arith;
                                                      }))

  -- A schedule that the reader returns has the ids 0, 1, 2, ..., its start times ascend weakly, and
  -- each flow leads from a valid endpoint to a set of other valid endpoints, has the group of its
  -- id, a rate that is neither zero nor negative, and starts before the end of the simulation.
  pub read_multicast_udp_schedule-IsMulticastUdpSchedule :
      (topology : Topology) (end_time : ℕ) (lines : List Text)
      (schedule : List (MulticastUdpInfo Double))
      → read_multicast_udp_schedule (some lines) topology end_time ≡ ok schedule
      → (k p : ℕ) × IsMulticastUdpSchedule topology end_time 0 0 schedule k p
  unfolding read_multicast_udp_schedule
  read_multicast_udp_schedule-IsMulticastUdpSchedule topology end_time lines schedule e =
      let (r, e1, e2) =
        >>=-eq-ok (for_each (read_multicast_udp_line topology end_time) start_reading lines) _ e in
      let h =
        (for_each-inv _ (read_multicast_udp_line topology end_time)
            (λ q line hq. read_line-ReadsSchedule topology end_time q line hq) start_reading lines
            (refl, refl)).holds
          r e1 in
      let same : r.schedule ≡ schedule = cc in
      (
        r.line_counter,
        r.prev_start_time_ns,
        subst
            (λ es.
              IsMulticastUdpSchedule topology end_time 0 0 es r.line_counter r.prev_start_time_ns)
            same h,
      )
