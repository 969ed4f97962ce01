-- ===== src/Schedule/TcpFlow.antt =====
-- simulator/contrib/basic-sim/helper/apps/tcp-flow-schedule-reader.cc.
use hypatia_multicast.Base.{
  ℕ, ◌+◌, ◌<◌, ◌≡◌, refl, subst, ◌≢◌, true, List, [], ◌∷◌, ◌++◌, Option, some, none, Result, ok,
  err, ◌>>=◌, ◌>>◌, not, for_each, arith, leb, ltb, ◌==◌, invalid_argument, runtime_error, throw_if,
  >>=-eq-ok, Ensures, bind, guarded, returns, for_each-inv,
}
use hypatia_multicast.ExpUtil.Text.{Text, split_string_expecting}
use hypatia_multicast.ExpUtil.Numbers.{parse_positive_int64}
use hypatia_multicast.Schedule.{
  Topology, field, Reading, start_reading, IsSchedule, IsSchedule-append,
}

pub record TcpFlowScheduleEntry : Type 0 where
  pub tcp_flow_id : ℕ
  pub from_node_id : ℕ
  pub to_node_id : ℕ
  pub size_byte : ℕ
  pub start_time_ns : ℕ
  pub additional_parameters : Text
  pub metadata : Text

-- The body of the loop over the lines.
unfoldable pub read_tcp_flow_line :
    Topology → ℕ → Reading TcpFlowScheduleEntry → Text → Result (Reading TcpFlowScheduleEntry)
read_tcp_flow_line topology simulation_end_time_ns r line = do
  comma_split ← split_string_expecting line (b',' ∷ []) 7
  id_text ← field comma_split 0
  tcp_flow_id ← parse_positive_int64 id_text
  throw_if (not (tcp_flow_id == r.line_counter)) invalid_argument
  from_text ← field comma_split 1
  from_node_id ← parse_positive_int64 from_text
  to_text ← field comma_split 2
  to_node_id ← parse_positive_int64 to_text
  size_text ← field comma_split 3
  size_byte ← parse_positive_int64 size_text
  start_text ← field comma_split 4
  start_time_ns ← parse_positive_int64 start_text
  additional_parameters ← field comma_split 5
  metadata ← field comma_split 6
  throw_if (ltb start_time_ns r.prev_start_time_ns) invalid_argument
  throw_if (from_node_id == to_node_id) invalid_argument
  throw_if (not (topology.is_valid_endpoint from_node_id)) invalid_argument
  throw_if (not (topology.is_valid_endpoint to_node_id)) invalid_argument
  throw_if (leb simulation_end_time_ns start_time_ns) invalid_argument
  ok (record {
    schedule =
        r.schedule
        ++ record {
          tcp_flow_id = tcp_flow_id;
          from_node_id = from_node_id;
          to_node_id = to_node_id;
          size_byte = size_byte;
          start_time_ns = start_time_ns;
          additional_parameters = additional_parameters;
          metadata = metadata;
        }
          ∷ [];
    line_counter = r.line_counter + 1;
    prev_start_time_ns = start_time_ns;
  })

unfoldable pub read_tcp_flow_schedule :
    Option (List Text) → Topology → ℕ → Result (List TcpFlowScheduleEntry)
unfolding for_each read_tcp_flow_line split_string_expecting parse_positive_int64
read_tcp_flow_schedule none topology simulation_end_time_ns = err runtime_error
read_tcp_flow_schedule (some lines) topology simulation_end_time_ns = do
  r ← for_each (read_tcp_flow_line topology simulation_end_time_ns) start_reading lines
  ok r.schedule

-- What holds of each entry.
pub record IsTcpFlow (topology : Topology) (end_time : ℕ) (e : TcpFlowScheduleEntry) : Type 0 where
  pub distinct : e.from_node_id ≢ e.to_node_id
  pub from_endpoint : topology.is_valid_endpoint e.from_node_id ≡ true
  pub to_endpoint : topology.is_valid_endpoint e.to_node_id ≡ true
  pub before_end : e.start_time_ns < end_time

abbrev pub IsTcpFlowSchedule : Topology → ℕ → ℕ → ℕ → List TcpFlowScheduleEntry → ℕ → ℕ → Type 0
IsTcpFlowSchedule topology end_time =
    IsSchedule (λ (e : TcpFlowScheduleEntry). e.tcp_flow_id) (λ e. e.start_time_ns)
      (IsTcpFlow topology end_time)

read_line-ReadsSchedule :
    (topology : Topology) (end_time : ℕ) (r : Reading TcpFlowScheduleEntry) (line : Text)
    → IsTcpFlowSchedule topology end_time 0 0 r.schedule r.line_counter r.prev_start_time_ns
    → Ensures
        (λ (q : Reading TcpFlowScheduleEntry).
          IsTcpFlowSchedule topology end_time 0 0 q.schedule q.line_counter q.prev_start_time_ns)
        (read_tcp_flow_line topology end_time r line)
unfolding read_tcp_flow_line
read_line-ReadsSchedule topology end_time r line h =
    bind (split_string_expecting line (b',' ∷ []) 7) _ λ split _. bind (field split 0) _ λ t0 _.
      bind (parse_positive_int64 t0) _ λ ident _.
        guarded (not (ident == r.line_counter)) invalid_argument _ λ numbered.
          bind (field split 1) _ λ t1 _. bind (parse_positive_int64 t1) _ λ from _.
            bind (field split 2) _ λ t2 _. bind (parse_positive_int64 t2) _ λ to _.
              bind (field split 3) _ λ t3 _. bind (parse_positive_int64 t3) _ λ size _.
                bind (field split 4) _ λ t4 _. bind (parse_positive_int64 t4) _ λ start _.
                  bind (field split 5) _ λ t5 _. bind (field split 6) _ λ t6 _.
                    guarded (ltb start r.prev_start_time_ns) invalid_argument _ λ ascending.
                      guarded (from == to) invalid_argument _ λ apart.
                        guarded (not (topology.is_valid_endpoint from)) invalid_argument _
                          λ from_ok.
                            guarded (not (topology.is_valid_endpoint to)) invalid_argument _
                              λ to_ok. guarded (leb end_time start) invalid_argument _ λ before.
                                returns _ (
                                  IsSchedule-append (λ (e : TcpFlowScheduleEntry). e.tcp_flow_id)
                                    (λ e. e.start_time_ns) (IsTcpFlow topology end_time) 0 0
                                    r.schedule r.line_counter r.prev_start_time_ns _ h
                                    (ground arith) (ground arith)
                                    (record {
                                      distinct = ground arith;
                                      from_endpoint = ground arith;
                                      to_endpoint = ground arith;
                                      before_end = ground arith;
                                    }))

-- A schedule that the reader returns has the ids 0, 1, 2, ..., its start times ascend weakly, and
-- each flow joins two distinct valid endpoints and starts before the end of the simulation.
pub read_tcp_flow_schedule-IsTcpFlowSchedule :
    (topology : Topology) (end_time : ℕ) (lines : List Text) (schedule : List TcpFlowScheduleEntry)
    → read_tcp_flow_schedule (some lines) topology end_time ≡ ok schedule
    → (k p : ℕ) × IsTcpFlowSchedule topology end_time 0 0 schedule k p
unfolding read_tcp_flow_schedule
read_tcp_flow_schedule-IsTcpFlowSchedule topology end_time lines schedule e =
    let (r, e1, e2) =
      >>=-eq-ok (for_each (read_tcp_flow_line topology end_time) start_reading lines) _ e in
    let h =
      (for_each-inv _ (read_tcp_flow_line topology end_time)
          (λ q line hq. read_line-ReadsSchedule topology end_time q line hq) start_reading lines
          (refl, refl)).holds
        r e1 in
    let same : r.schedule ≡ schedule = cc in
    (
      r.line_counter,
      r.prev_start_time_ns,
      subst (λ es. IsTcpFlowSchedule topology end_time 0 0 es r.line_counter r.prev_start_time_ns)
          same h,
    )
