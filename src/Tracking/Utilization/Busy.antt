-- ===== src/Tracking/Utilization/Busy.antt =====
-- What ptop-link-utilization-tracker.cc reports: the intervals hold the time that the link was on.
use hypatia_multicast.Base.{
  ℕ, ◌+◌, ◌-◌, ◌≤◌, ◌<◌, ◌≡◌, refl, sym, ap, subst, ◌∙◌, ◌⊎◌, Bool, true, false, List, [], ◌∷◌,
  ◌++◌, ok, ◌>>=◌, if◌then◌else◌, not, arith, ◌==◌, Bool-cases, inl, inr,
}
use Prim.Native.Nat.{min}
use hypatia_multicast.Tracking.Utilization.{
  PtopLinkUtilizationTracker, new_ptop_link_utilization_tracker, track_utilization,
  finalize_utilization, track_calls,
}
use hypatia_multicast.Tracking.Utilization.Invariant.{
  Tiles, Tiles-of_agree, IsTracking, track_utilization-IsTracking,
}

-- The time before `t` that a link in the state `cur` from `a` to `b` was on.
abbrev pub during : Bool → ℕ → ℕ → ℕ → ℕ
during cur a b t = if cur then min b t - min a t else 0

-- The time before `t` that a link was on, which was in the state `cur` at `prev`, changed its state
-- at the calls and is observed until `stop`.
abbrev pub link_on : Bool → ℕ → List (ℕ × Bool) → ℕ → ℕ → ℕ
link_on cur prev [] stop t = during cur prev stop t
link_on cur prev ((now, on) ∷ cs) stop t = during cur prev now t + link_on on now cs stop t

-- Calls in the order of time, each of which changes the state.
abbrev pub Alternates : Bool → ℕ → List (ℕ × Bool) → ℕ → Type 0
Alternates cur prev [] stop = prev ≤ stop
Alternates cur prev ((now, on) ∷ cs) stop =
    (prev ≤ now) × (on ≡ not cur) × Alternates on now cs stop

-- Intervals of `w` ns from `start` on, and a shorter last one if `stop` needs one; each holds the
-- growth of `busy` over it.
abbrev pub IsUtilization : (ℕ → ℕ) → ℕ → ℕ → List (ℕ × ℕ × ℕ) → ℕ → Type 0
IsUtilization busy w start [] stop = start ≡ stop
IsUtilization busy w start ((left, right, b) ∷ rest) stop =
    (left ≡ start)
    × (b + busy left ≡ busy right)
    × (left < right)
    × (((right ≡ left + w) × IsUtilization busy w right rest stop)
        ⊎ ((right < left + w) × (right ≡ stop) × (rest ≡ [])))

Tiles-IsUtilization :
    (busy : ℕ → ℕ) (w start m : ℕ) (log : List (ℕ × ℕ × ℕ))
    → 0 < w
    → Tiles busy w start log m
    → IsUtilization busy w start log m
Tiles-IsUtilization busy w start m [] p h = h
Tiles-IsUtilization busy w start m ((l, r, b) ∷ log) p h =
    (h.0, h.2, omega arith, inl (h.1, Tiles-IsUtilization busy w r m log p h.3))

Tiles-append_last :
    (busy : ℕ → ℕ) (w start m stop b : ℕ) (log : List (ℕ × ℕ × ℕ))
    → 0 < w
    → Tiles busy w start log m
    → m < stop
    → stop < m + w
    → b + busy m ≡ busy stop
    → IsUtilization busy w start (log ++ (m, stop, b) ∷ []) stop
Tiles-append_last busy w start m stop b [] p h lt short e = (sym h, e, lt, inr (short, refl, refl))
Tiles-append_last busy w start m stop b ((l, r, c) ∷ log) p h lt short e =
    (h.0, h.2, omega arith, inl (h.1, Tiles-append_last busy w r m stop b log p h.3 lt short e))

pub IsTracking-of_agree :
    (busy busy' : ℕ → ℕ) (s : PtopLinkUtilizationTracker)
    → ((t : ℕ) → t ≤ s.prev_time_ns → busy t ≡ busy' t)
    → IsTracking busy s
    → IsTracking busy' s
IsTracking-of_agree busy busy' s agree v = record {
  positive = v.positive;
  ends = v.ends;
  begun = v.begun;
  not_over = v.not_over;
  counted = v.counted;
  is_busy = omega (
    arith,
    v.is_busy,
    agree s.current_interval_start v.begun,
    agree s.prev_time_ns (omega arith),
  );
  tiles =
      Tiles-of_agree busy busy' s.interval_ns 0 s.current_interval_start s.intervals
        (λ t le. agree t (omega (arith, v.begun))) v.tiles;
}

-- A call that ends the state `cur`, where `busy` does not count what comes after the last call.
change_state :
    (busy : ℕ → ℕ) (s : PtopLinkUtilizationTracker) (now : ℕ) (cur : Bool)
    → IsTracking busy s
    → ((t : ℕ) → s.prev_time_ns ≤ t → busy t ≡ busy s.prev_time_ns)
    → s.prev_time_ns ≤ now
    → (t : PtopLinkUtilizationTracker) × (track_utilization s now (not cur) ≡ ok t)
      × IsTracking (λ u. busy u + during cur s.prev_time_ns now u) t
      × (t.prev_time_ns ≡ now)
      × (t.current_state_is_on ≡ not cur)
      × (t.interval_ns ≡ s.interval_ns)
      × (now < t.current_interval_end)
change_state busy s now true v after le =
    track_utilization-IsTracking _ s now false (IsTracking-of_agree busy _ s (λ t h. omega arith) v)
      (λ t from to. omega (arith, after t from)) le
change_state busy s now false v after le =
    track_utilization-IsTracking _ s now true (IsTracking-of_agree busy _ s (λ t h. omega arith) v)
      (λ t from to. omega (arith, after t from)) le

-- The calls of a run, and the call that `FinalizeUtilization` makes at `stop`.
pub run_and_stop :
    (busy : ℕ → ℕ) (s : PtopLinkUtilizationTracker) (cur : Bool) (prev : ℕ) (cs : List (ℕ × Bool))
    (stop : ℕ)
    → IsTracking busy s
    → ((t : ℕ) → prev ≤ t → busy t ≡ busy prev)
    → s.prev_time_ns ≡ prev
    → s.current_state_is_on ≡ cur
    → Alternates cur prev cs stop
    → (t u : PtopLinkUtilizationTracker) × (track_calls s cs ≡ ok t)
      × (track_utilization t stop (not t.current_state_is_on) ≡ ok u)
      × IsTracking (λ x. busy x + link_on cur prev cs stop x) u
      × (u.prev_time_ns ≡ stop)
      × (u.interval_ns ≡ s.interval_ns)
      × (stop < u.current_interval_end)
unfolding track_calls
run_and_stop busy s cur prev [] stop v after e c alt =
    let (u, eq, vu, at, state, width, end) =
      change_state busy s stop cur v (λ t h. rw e (after t (omega arith))) (omega arith) in
    (
      s,
      u,
      refl,
      subst (λ b. track_utilization s stop (not b) ≡ ok u) (sym c) eq,
      subst (λ p. IsTracking (λ x. busy x + during cur p stop x) u) e vu,
      at,
      width,
      end,
    )
run_and_stop busy s cur prev ((now, on) ∷ cs) stop v after e c alt =
    let (t, eq, vt, at, state, width, _) =
      change_state busy s now cur v (λ t h. rw e (after t (omega arith))) (omega arith) in
    let vt' = subst (λ p. IsTracking (λ x. busy x + during cur p now x) t) e vt in
    let (t', u, eq', equ, vu, atu, widthu, end) =
      run_and_stop (λ x. busy x + during cur prev now x) t on now cs stop vt'
        (λ x h. stays cur x h (after x (omega arith)) (after now alt.0)) at (state ∙ sym alt.1)
        alt.2 in
    (
      t',
      u,
      rw (alt.1, eq) eq',
      equ,
      IsTracking-of_agree _ _ u (λ x h. omega arith) vu,
      atu,
      widthu ∙ width,
      end,
    )
  where
    stays :
        (cur : Bool) (x : ℕ)
        → now ≤ x
        → busy x ≡ busy prev
        → busy now ≡ busy prev
        → busy x + during cur prev now x ≡ busy now + during cur prev now now
    stays true x h e1 e2 = omega arith
    stays false x h e1 e2 = omega arith

pub new-IsTracking : (w : ℕ) → 0 < w → IsTracking (λ x. 0) (new_ptop_link_utilization_tracker w)
unfolding new_ptop_link_utilization_tracker
new-IsTracking w h = record {
  positive = h;
  ends = omega arith;
  begun = omega arith;
  not_over = omega arith;
  counted = refl;
  is_busy = refl;
  tiles = refl;
}

-- With an interval of w > 0 ns, after calls in the order of time each of which changes the state of
-- the link (off at first), `FinalizeUtilization` at a time that is not before them returns, its
-- loops ending and its assertions holding. The result has intervals of w ns from 0 on, and a
-- shorter last one if the time is no multiple of w; each holds exactly the time for which the link
-- was on in it.
pub finalize_utilization-link_on :
    (w : ℕ) (cs : List (ℕ × Bool)) (stop : ℕ)
    → 0 < w
    → Alternates false 0 cs stop
    → (s : PtopLinkUtilizationTracker) × ((track_calls (new_ptop_link_utilization_tracker w) cs
          >>= λ t. finalize_utilization t stop)
        ≡ ok s)
      × IsUtilization (link_on false 0 cs stop) w 0 s.intervals stop
unfolding finalize_utilization new_ptop_link_utilization_tracker
finalize_utilization-link_on w cs stop pos_w alt =
    let (t, u, e, eu, v, at, width, end) =
      run_and_stop (λ x. 0) (new_ptop_link_utilization_tracker w) false 0 cs stop
        (new-IsTracking w pos_w) (λ x h. refl) refl refl alt in
    let v' = IsTracking-of_agree _ (link_on false 0 cs stop) u (λ x h. omega arith) v in
    let tiles =
      subst (λ k. Tiles (link_on false 0 cs stop) k 0 u.intervals u.current_interval_start) width
        v'.tiles in
    elim (Bool-cases (stop == u.current_interval_start)) [
      | inl done ↦ (
        u,
        rw (e, eu, done),
        subst (λ k. IsUtilization (link_on false 0 cs stop) w 0 u.intervals k) (ground arith)
            (Tiles-IsUtilization _ w 0 u.current_interval_start u.intervals pos_w tiles),
      )
      | inr more ↦ (
        record u {
          intervals = u.intervals ++ (u.current_interval_start, stop, u.busy_time_counter_ns) ∷ [];
        },
        rw (e, eu, more),
        Tiles-append_last _ w 0 u.current_interval_start stop u.busy_time_counter_ns u.intervals
            pos_w tiles (ground (arith, v'.begun, at)) (omega (arith, v'.ends, width, end))
            (v'.is_busy ∙ ap (link_on false 0 cs stop) at),
      )
    ]
