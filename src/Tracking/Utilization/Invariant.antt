-- ===== src/Tracking/Utilization/Invariant.antt =====
-- What ptop-link-utilization-tracker.cc keeps between its calls: the intervals tile the time, and
-- each holds the busy time of its span.
use hypatia_multicast.Base.{
  ℕ, zero, suc, ◌+◌, ◌-◌, ◌≤◌, ◌<◌, ◌≡◌, refl, sym, ap, ◌∙◌, Bool, true, false, List, [], ◌∷◌, ◌++◌,
  ok, if◌then◌else◌, arith, ltb, Bool-cases, inl, inr, ltb→lt, ==_iff,
}
use hypatia_multicast.Tracking.Utilization.{
  PtopLinkUtilizationTracker, count_until, next_interval, close_intervals, track_utilization,
}

-- Intervals of `w` ns from `start` to `stop`, each with the growth of `busy` over it.
abbrev pub Tiles : (ℕ → ℕ) → ℕ → ℕ → List (ℕ × ℕ × ℕ) → ℕ → Type 0
Tiles busy w start [] stop = start ≡ stop
Tiles busy w start ((left, right, b) ∷ rest) stop =
    (left ≡ start)
    × (right ≡ left + w)
    × (b + busy left ≡ busy right)
    × Tiles busy w right rest stop

pub Tiles-append :
    (busy : ℕ → ℕ) (w start m r b : ℕ) (log : List (ℕ × ℕ × ℕ))
    → Tiles busy w start log m
    → r ≡ m + w
    → b + busy m ≡ busy r
    → Tiles busy w start (log ++ (m, r, b) ∷ []) (m + w)
Tiles-append busy w start m r b [] h e g = (sym h, e, g, e)
Tiles-append busy w start m r b ((l, r', c) ∷ log) h e g =
    (h.0, h.1, h.2, Tiles-append busy w r' m r b log h.3 e g)

pub Tiles-le :
    (busy : ℕ → ℕ) (w start stop : ℕ) (log : List (ℕ × ℕ × ℕ))
    → Tiles busy w start log stop
    → start ≤ stop
Tiles-le busy w start stop [] h = omega arith
Tiles-le busy w start stop ((l, r, b) ∷ log) h = omega (arith, Tiles-le busy w r stop log h.3)

-- Only the busy time up to `stop` matters.
pub Tiles-of_agree :
    (busy busy' : ℕ → ℕ) (w start stop : ℕ) (log : List (ℕ × ℕ × ℕ))
    → ((t : ℕ) → t ≤ stop → busy t ≡ busy' t)
    → Tiles busy w start log stop
    → Tiles busy' w start log stop
Tiles-of_agree busy busy' w start stop [] agree h = h
Tiles-of_agree busy busy' w start stop ((l, r, b) ∷ log) agree h =
    let le = Tiles-le busy w r stop log h.3 in
    (
      h.0,
      h.1,
      omega (arith, agree l (omega arith), agree r le),
      Tiles-of_agree busy busy' w r stop log agree h.3,
    )

-- The invariant at a time: `busy t` is the busy time before `t`.
pub record IsTracking (busy : ℕ → ℕ) (s : PtopLinkUtilizationTracker) : Type 0 where
  pub positive : 0 < s.interval_ns
  pub ends : s.current_interval_end ≡ s.current_interval_start + s.interval_ns
  pub begun : s.current_interval_start ≤ s.prev_time_ns
  pub not_over : s.prev_time_ns ≤ s.current_interval_end
  pub counted :
      s.idle_time_counter_ns + s.busy_time_counter_ns + s.current_interval_start ≡ s.prev_time_ns
  pub is_busy : s.busy_time_counter_ns + busy s.current_interval_start ≡ busy s.prev_time_ns
  pub tiles : Tiles busy s.interval_ns 0 s.intervals s.current_interval_start

-- From the previous call to `now` the link was in one state: idle if it is turned on now.
abbrev pub IsSteady : (ℕ → ℕ) → ℕ → ℕ → Bool → Type 0
IsSteady busy prev now on =
    (t : ℕ) → prev ≤ t → t ≤ now → busy t ≡ busy prev + (if on then 0 else t - prev)

-- One round of the loop, and the fields that both states set alike.
abbrev round : PtopLinkUtilizationTracker → Bool → PtopLinkUtilizationTracker
round s on = next_interval (count_until s on s.current_interval_end)

round_fields :
    (s : PtopLinkUtilizationTracker) (on : Bool)
    → ((round s on).prev_time_ns ≡ s.current_interval_end)
      × ((round s on).current_interval_end ≡ s.current_interval_end + s.interval_ns)
      × ((round s on).interval_ns ≡ s.interval_ns)
      × ((round s on).current_state_is_on ≡ s.current_state_is_on)
unfolding next_interval count_until
round_fields s true = (refl, refl, refl, refl)
round_fields s false = (refl, refl, refl, refl)

next_interval-IsTracking :
    (busy : ℕ → ℕ) (s : PtopLinkUtilizationTracker) (now : ℕ) (on : Bool)
    → IsTracking busy s
    → IsSteady busy s.prev_time_ns now on
    → s.current_interval_end ≤ now
    → IsTracking busy (round s on)
      × IsSteady busy (round s on).prev_time_ns now on
      × ((count_until s on s.current_interval_end).idle_time_counter_ns
            + (count_until s on s.current_interval_end).busy_time_counter_ns
          ≡ (count_until s on s.current_interval_end).interval_ns)
unfolding next_interval count_until
next_interval-IsTracking busy s now true v steady le =
    let at_end = steady s.current_interval_end v.not_over le in
    (
      record {
        positive = v.positive;
        ends = omega (arith, v.ends);
        begun = omega (arith, v.ends);
        not_over = omega (arith, v.positive);
        counted = omega (arith, v.ends);
        is_busy = omega (arith, ap busy v.ends);
        tiles =
            Tiles-append busy s.interval_ns 0 s.current_interval_start s.current_interval_end _
              s.intervals v.tiles v.ends (omega (arith, v.is_busy, at_end));
      },
      λ t from to. omega (arith, at_end, steady t (omega (arith, v.not_over)) to, v.not_over),
      omega (arith, v.counted, v.ends, v.not_over),
    )
next_interval-IsTracking busy s now false v steady le =
    let at_end = steady s.current_interval_end v.not_over le in
    (
      record {
        positive = v.positive;
        ends = omega (arith, v.ends);
        begun = omega (arith, v.ends);
        not_over = omega (arith, v.positive);
        counted = omega (arith, v.ends);
        is_busy = omega (arith, ap busy v.ends);
        tiles =
            Tiles-append busy s.interval_ns 0 s.current_interval_start s.current_interval_end _
              s.intervals v.tiles v.ends (omega (arith, v.is_busy, at_end));
      },
      λ t from to. omega (arith, at_end, steady t (omega (arith, v.not_over)) to, v.not_over),
      omega (arith, v.counted, v.ends, v.not_over),
    )

-- The loop ends, keeps the invariant and never meets a failed assertion.
pub close_intervals-IsTracking :
    (busy : ℕ → ℕ) (fuel : ℕ) (s : PtopLinkUtilizationTracker) (now : ℕ) (on : Bool)
    → IsTracking busy s
    → IsSteady busy s.prev_time_ns now on
    → s.prev_time_ns ≤ now
    → now < s.current_interval_end + fuel
    → (t : PtopLinkUtilizationTracker) × (close_intervals (suc fuel) s now on ≡ ok t)
      × IsTracking busy t
      × IsSteady busy t.prev_time_ns now on
      × (t.prev_time_ns ≤ now)
      × (now < t.current_interval_end)
      × (t.interval_ns ≡ s.interval_ns)
      × (t.current_state_is_on ≡ s.current_state_is_on)
unfolding close_intervals
close_intervals-IsTracking busy zero s now on v steady le enough =
    let e : ltb now s.current_interval_end ≡ true = ground arith in
    (s, rw e, v, steady, le, omega arith, refl, refl)
close_intervals-IsTracking busy (suc fuel) s now on v steady le enough =
    elim (Bool-cases (ltb now s.current_interval_end)) [
      | inl e ↦ (s, rw e, v, steady, le, ltb→lt now s.current_interval_end e, refl, refl)
      | inr more ↦
          let (v', steady', sum) = next_interval-IsTracking busy s now on v steady (ground arith) in
          let (prev, ends, width, state) = round_fields s on in
          let (t, e, vt, st, le', end, same, on') =
            close_intervals-IsTracking busy fuel (round s on) now on v' steady'
              (ground (arith, prev)) (omega (arith, ends, v.positive)) in
          (t, rw (more, (==_iff _ _).1 sum) e, vt, st, le', end, same ∙ width, on' ∙ state)
    ]

-- A call keeps the invariant, whatever the state of the link was.
pub track_utilization-IsTracking :
    (busy : ℕ → ℕ) (s : PtopLinkUtilizationTracker) (now : ℕ) (on : Bool)
    → IsTracking busy s
    → IsSteady busy s.prev_time_ns now on
    → s.prev_time_ns ≤ now
    → (t : PtopLinkUtilizationTracker) × (track_utilization s now on ≡ ok t)
      × IsTracking busy t
      × (t.prev_time_ns ≡ now)
      × (t.current_state_is_on ≡ on)
      × (t.interval_ns ≡ s.interval_ns)
      × (now < t.current_interval_end)
unfolding track_utilization count_until
track_utilization-IsTracking busy s now on v steady le =
    let (t, e, vt, st, le', end, same, on') =
      close_intervals-IsTracking busy now s now on v steady le
        (omega (arith, v.positive, v.ends)) in
    let at_now = st now le' (omega arith) in
    (
      record (count_until t on now) { current_state_is_on = on; prev_time_ns = now },
      rw e,
      after t on at_now vt le' end,
      refl,
      refl,
      width t on ∙ same,
      last t on end,
    )
  where
    after :
        (t : PtopLinkUtilizationTracker) (on : Bool)
        → busy now ≡ busy t.prev_time_ns + (if on then 0 else now - t.prev_time_ns)
        → IsTracking busy t
        → t.prev_time_ns ≤ now
        → now < t.current_interval_end
        → IsTracking busy
            (record (count_until t on now) { current_state_is_on = on; prev_time_ns = now })
    after t true e v le end = record {
      positive = v.positive;
      ends = v.ends;
      begun = omega arith;
      not_over = omega arith;
      counted = omega arith;
      is_busy = omega arith;
      tiles = v.tiles;
    }
    after t false e v le end = record {
      positive = v.positive;
      ends = v.ends;
      begun = omega arith;
      not_over = omega arith;
      counted = omega arith;
      is_busy = omega arith;
      tiles = v.tiles;
    }

    width :
        (t : PtopLinkUtilizationTracker) (on : Bool)
        → (count_until t on now).interval_ns ≡ t.interval_ns
    width t true = refl
    width t false = refl

    last :
        (t : PtopLinkUtilizationTracker) (on : Bool)
        → now < t.current_interval_end
        → now < (count_until t on now).current_interval_end
    last t true h = h
    last t false h = h
