-- ===== src/Satellite/Laser/Tracking.antt =====
-- The utilization that point-to-point-laser-net-device.cc tracks, by way of the tracker of
-- simulator/contrib/basic-sim/model/core/ptop-link-utilization-tracker.cc, whose loop is the same.
use hypatia_multicast.Base.{
  ℕ, zero, suc, ◌+◌, ◌≤◌, ◌<◌, ◌≡◌, refl, ap, sym, subst, ◌∙◌, arith, not, Bool, true, false, List,
  [], ◌∷◌, ◌++◌, map, Result, ok, err, ◌>>=◌, for_each, ltb, ◌==◌, if◌then◌else◌, assertion,
}
use hypatia_multicast.Tracking.Utilization.{
  PtopLinkUtilizationTracker, new_ptop_link_utilization_tracker, count_until, next_interval,
  close_intervals, track_utilization, track_calls,
}
use hypatia_multicast.Satellite.Laser.{
  LinkUtilization, enable_utilization_tracking, add_time, move_interval, end_intervals, track,
  finalize_link,
}
use hypatia_multicast.Tracking.Utilization.Invariant.{Tiles}
use hypatia_multicast.Tracking.Utilization.Busy.{
  link_on, Alternates, run_and_stop, new-IsTracking, IsTracking-of_agree,
}
use hypatia_multicast.Satellite.Server.{++-nil}

-- An interval as the fraction of its time that is busy.
abbrev pub fraction : ℕ → ℕ × ℕ × ℕ → ℕ × ℕ
fraction w (start, stop, busy_ns) = (busy_ns, w)

-- What a device's members are when those of the tracker are these, and the utilization `earlier` has
-- been saved before.
abbrev pub link_of : List (ℕ × ℕ) → PtopLinkUtilizationTracker → LinkUtilization
link_of earlier s = record {
  tracking_enabled = true;
  interval_ns = s.interval_ns;
  prev_time_ns = s.prev_time_ns;
  current_interval_start = s.current_interval_start;
  current_interval_end = s.current_interval_end;
  idle_time_counter_ns = s.idle_time_counter_ns;
  busy_time_counter_ns = s.busy_time_counter_ns;
  current_state_is_on = s.current_state_is_on;
  utilization = earlier ++ map (fraction s.interval_ns) s.intervals;
}

-- A result whose value is carried over.
abbrev pub then_link : List (ℕ × ℕ) → Result PtopLinkUtilizationTracker → Result LinkUtilization
then_link earlier r = r >>= λ s. ok (link_of earlier s)

map-append {ℓ κ} :
    {X : Type ℓ} {Y : Type κ} (f : X → Y) (xs : List X) (x : X)
    → map f (xs ++ x ∷ []) ≡ map f xs ++ f x ∷ []
map-append f [] x = refl
map-append f (y ∷ ys) x = ap (λ l. f y ∷ l) (map-append f ys x)

++-assoc {ℓ} : {X : Type ℓ} (xs ys zs : List X) → (xs ++ ys) ++ zs ≡ xs ++ (ys ++ zs)
++-assoc [] ys zs = refl
++-assoc (x ∷ xs) ys zs = ap (λ l. x ∷ l) (++-assoc xs ys zs)

add_time-link_of :
    (p : List (ℕ × ℕ)) (s : PtopLinkUtilizationTracker) (on : Bool) (time : ℕ)
    → add_time (link_of p s) on time ≡ link_of p (count_until s on time)
unfolding add_time count_until
add_time-link_of p s true time = refl
add_time-link_of p s false time = refl

move_interval-link_of :
    (p : List (ℕ × ℕ)) (s : PtopLinkUtilizationTracker)
    → move_interval (link_of p s) ≡ link_of p (next_interval s)
unfolding move_interval next_interval
move_interval-link_of p s =
    ap (λ l. record (move_interval (link_of p s)) { utilization = l })
      (++-assoc p (map (fraction s.interval_ns) s.intervals) _
        ∙ ap (λ l. p ++ l)
            (sym (
              map-append (fraction s.interval_ns) s.intervals
                (s.current_interval_start, s.current_interval_end, s.busy_time_counter_ns))))

-- Both loops make the same tests.
then_link-if :
    (p : List (ℕ × ℕ)) (done fits : Bool) (a b : Result PtopLinkUtilizationTracker)
    → (if done then then_link p a else if fits then then_link p b else err assertion)
      ≡ then_link p (if done then a else if fits then b else err assertion)
then_link-if p true fits a b = refl
then_link-if p false true a b = refl
then_link-if p false false a b = refl

end_intervals-link_of :
    (p : List (ℕ × ℕ)) (fuel : ℕ) (s : PtopLinkUtilizationTracker) (now : ℕ) (on : Bool)
    → end_intervals fuel (link_of p s) now on ≡ then_link p (close_intervals fuel s now on)
unfolding end_intervals close_intervals
end_intervals-link_of p zero s now on = refl
end_intervals-link_of p (suc fuel) s now on =
    let t = count_until s on s.current_interval_end in
    rw
      (
        add_time-link_of p s on s.current_interval_end,
        move_interval-link_of p t,
        end_intervals-link_of p fuel (next_interval t) now on,
      )
      (then_link-if p (ltb now s.current_interval_end)
        (t.idle_time_counter_ns + t.busy_time_counter_ns == t.interval_ns) (ok s)
        (close_intervals fuel (next_interval t) now on))

track-link_of :
    (p : List (ℕ × ℕ)) (s : PtopLinkUtilizationTracker) (now : ℕ) (on : Bool)
    → track (link_of p s) now on ≡ then_link p (track_utilization s now on)
unfolding track track_utilization
track-link_of p s now on =
    rw (end_intervals-link_of p (suc now) s now on) (finish (close_intervals (suc now) s now on))
  where
    finish :
        (r : Result PtopLinkUtilizationTracker)
        → (then_link p r >>= λ t.
            ok (record (add_time t on now) { current_state_is_on = on; prev_time_ns = now }))
          ≡ then_link p (
              r >>= λ t.
              ok (record (count_until t on now) { current_state_is_on = on; prev_time_ns = now }))
    finish (err e) = refl
    finish (ok t) =
        ap (λ (u : LinkUtilization). ok (record u { current_state_is_on = on; prev_time_ns = now }))
          (add_time-link_of p t on now)

-- The calls of `TrackUtilization` in a run.
abbrev pub track_link : LinkUtilization → List (ℕ × Bool) → Result LinkUtilization
unfolding for_each track
track_link = for_each (λ u (now_ns, on). track u now_ns on)

track_link-link_of :
    (p : List (ℕ × ℕ)) (s : PtopLinkUtilizationTracker) (calls : List (ℕ × Bool))
    → track_link (link_of p s) calls ≡ then_link p (track_calls s calls)
unfolding track_link track_calls for_each
track_link-link_of p s [] = refl
track_link-link_of p s ((now, on) ∷ calls) =
    rw (track-link_of p s now on)
      (go_on (track_utilization s now on) (λ t. track_link-link_of p t calls))
  where
    go_on :
        (r : Result PtopLinkUtilizationTracker)
        → ((t : PtopLinkUtilizationTracker)
            → track_link (link_of p t) calls ≡ then_link p (track_calls t calls))
        → (then_link p r >>= λ u. track_link u calls) ≡ then_link p (r >>= λ t. track_calls t calls)
    go_on (err e) ih = refl
    go_on (ok t) ih = ih t

enable-link_of :
    (u : LinkUtilization) (w : ℕ)
    → enable_utilization_tracking u w ≡ link_of u.utilization (new_ptop_link_utilization_tracker w)
unfolding enable_utilization_tracking new_ptop_link_utilization_tracker
enable-link_of u w =
    ap (λ l. record (enable_utilization_tracking u w) { utilization = l })
      (sym (++-nil u.utilization))

-- What a device has after it has been tracked and finalized: what it had saved before, and the
-- fractions of the intervals of w ns from 0 to `end`, each of which holds the growth of `busy`.
pub record IsFinal (before : List (ℕ × ℕ)) (busy : ℕ → ℕ) (w stop : ℕ) (v : LinkUtilization)
    : Type 0 where
  pub intervals : List (ℕ × ℕ × ℕ)
  pub end : ℕ
  pub saved : v.utilization ≡ before ++ map (fraction w) intervals
  pub tiles : Tiles busy w 0 intervals end
  pub reaches : end ≤ stop
  pub is_last : stop < end + w

-- With an interval of w > 0 ns, after `EnableUtilizationTracking` and calls of `TrackUtilization` in
-- the order of time each of which changes the state of the link (off at first), `FinalizeUtilization`
-- at a time `stop` that is not before them returns, its loops ending and its assertions holding.
-- m_utilization is then what it was before tracking was enabled, followed by the fractions of the
-- intervals of w ns from 0 on that end at `stop` or earlier, each with exactly the time for which
-- the link was on in it; a shorter interval at the end is dropped.
pub finalize_link-link_on :
    (u : LinkUtilization) (w : ℕ) (cs : List (ℕ × Bool)) (stop : ℕ)
    → 0 < w
    → Alternates false 0 cs stop
    → (v : LinkUtilization) × ((track_link (enable_utilization_tracking u w) cs >>= λ t.
          finalize_link t stop)
        ≡ ok v)
      × IsFinal u.utilization (link_on false 0 cs stop) w stop v
unfolding finalize_link new_ptop_link_utilization_tracker
finalize_link-link_on u w cs stop pos_w alt =
    let p = u.utilization in
    let (t, f, e, ef, v, at, width, end) =
      run_and_stop (λ x. 0) (new_ptop_link_utilization_tracker w) false 0 cs stop
        (new-IsTracking w pos_w) (λ x h. refl) refl refl alt in
    let v' = IsTracking-of_agree _ (link_on false 0 cs stop) f (λ x h. omega arith) v in
    let stopped : track (link_of p t) stop (not t.current_state_is_on) ≡ ok (link_of p f) =
      track-link_of p t stop (not t.current_state_is_on) ∙ ap (then_link p) ef in
    (
      link_of p f,
      rw (enable-link_of u w, track_link-link_of p (new_ptop_link_utilization_tracker w) cs, e)
          stopped,
      record {
        intervals = f.intervals;
        end = f.current_interval_start;
        saved = ap (λ k. p ++ map (fraction k) f.intervals) width;
        tiles =
            subst (λ k. Tiles (link_on false 0 cs stop) k 0 f.intervals f.current_interval_start)
              width v'.tiles;
        reaches = omega (arith, v'.begun, at);
        is_last = omega (arith, v'.ends, width, end);
      },
    )
