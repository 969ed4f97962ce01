-- ===== src/Satellite/Gsl/Runs.antt =====
-- The runs of a device of gsl-net-device.cc: its packets, the ends of its transmissions as the
-- simulator brings them, changes of its data rate, and arriving packets, in any order.
use hypatia_multicast.Base.{
  ℕ, ◌≤◌, ◌≡◌, refl, sym, ap, subst, ◌∙◌, Bool, true, false, List, [], ◌∷◌, ◌++◌, some, ok, ◌>>=◌,
  Ensures, bind, returns, if◌then◌else◌,
}
use hypatia_multicast.Satellite.{
  Packets, Queues, IsFifo, ether_to_ppp, process_header, add_header-ok, phy_rx_drop, phy_rx_end,
  sniffer, promisc_sniffer,
}
use hypatia_multicast.Satellite.Server.{
  Server, idle_server, accept_all, finish, IsServing, idle_server-IsServing, accept_all-IsServing,
  wait-IsServing, finish-IsServing, idle-of_phase,
}
use hypatia_multicast.Satellite.Gsl.{
  GslNetDevice, new_gsl_net_device, attach, set_data_rate, send, transmit_complete, receive,
  deliver, trace,
}
use hypatia_multicast.Satellite.Gsl.Refines.{
  Implements, idle, transmitting, duration_of, trace-Implements, Tries, Tries-ok, Tries-weaken,
}
use hypatia_multicast.Satellite.Gsl.Channel.{Port}
use hypatia_multicast.Satellite.Gsl.Operations.{
  accepted_items, send-Implements, transmit_complete-Implements,
}

-- The simulator brings its events in the order of their times.
abbrev pub IsNotAfter : {A : Type 0} → ℕ → List (ℕ × A) → Type 0
IsNotAfter now [] = Unit
IsNotAfter now ((time, dest) ∷ events) = (now ≤ time) × IsNotAfter now events

-- A device's state at a time, when it has taken in some packets. Its operations have returned, and
-- the devices of its channel stay the same.
pub data Run (pk : Packets) (qs : Queues pk.Packet) {D : Type 0} (port : Port D)
    : ℕ → List (pk.Packet × ℕ) → GslNetDevice pk.Packet qs.Queue D → Type 0 where
  attached :
      (bps : ℕ → ℕ) (gap_ns : ℕ) (q : qs.Queue)
      → qs.contents q ≡ []
      → Run pk qs port 0 [] (attach (new_gsl_net_device bps gap_ns q))
  sent :
      {now : ℕ} {accepted : List (pk.Packet × ℕ)} {d : GslNetDevice pk.Packet qs.Queue D}
      (later : ℕ) (packet : pk.Packet) (dest : ℕ) (proto ppp : ℕ)
      (t : GslNetDevice pk.Packet qs.Queue D × Bool)
      → Run pk qs port now accepted d
      → now ≤ later
      → IsNotAfter later d.scheduled
      → ether_to_ppp proto ≡ ok ppp
      → send pk qs port d later packet dest proto ≡ ok t
      → Run pk qs port later (accepted ++ accepted_items pk qs d packet dest proto) t.0
  completed :
      {now : ℕ} {accepted : List (pk.Packet × ℕ)} {d : GslNetDevice pk.Packet qs.Queue D}
      (until : ℕ) (dest : ℕ) (events : List (ℕ × ℕ)) (t : GslNetDevice pk.Packet qs.Queue D)
      → Run pk qs port now accepted d
      → d.scheduled ≡ (until, dest) ∷ events
      → transmit_complete pk qs port (record d { scheduled = events }) until ≡ ok t
      → Run pk qs port until accepted t
  rate_set :
      {now : ℕ} {accepted : List (pk.Packet × ℕ)} {d : GslNetDevice pk.Packet qs.Queue D}
      (bps : ℕ → ℕ)
      → Run pk qs port now accepted d
      → Run pk qs port now accepted (set_data_rate d bps)
  arrived :
      {now : ℕ} {accepted : List (pk.Packet × ℕ)} {d : GslNetDevice pk.Packet qs.Queue D}
      (is_corrupt : pk.Packet → Bool) (packet : pk.Packet) (t : GslNetDevice pk.Packet qs.Queue D)
      → Run pk qs port now accepted d
      → receive pk qs is_corrupt d packet ≡ ok t
      → Run pk qs port now accepted t

module _ (pk : Packets) (qs : Queues pk.Packet) {D : Type 0} (port : Port D)
    (fifo : IsFifo qs) where
  abbrev Device : Type 0
  Device = GslNetDevice pk.Packet qs.Queue D

  -- The device and a server that has taken in the same packets.
  pub record IsServer (now : ℕ) (accepted : List (pk.Packet × ℕ)) (d : Device) : Type 0 where
    pub server : Server (pk.Packet × ℕ)
    pub implements : Implements pk qs port d server
    pub serving : IsServing now accepted server

  set_data_rate-Implements :
      (d : Device) (s : Server (pk.Packet × ℕ)) (bps : ℕ → ℕ)
      → Implements pk qs port d s
      → Implements pk qs port (set_data_rate d bps) s
  unfolding set_data_rate
  set_data_rate-Implements d s bps h = record {
    queued = h.queued;
    dests = h.dests;
    sent = h.sent;
    arrivals = h.arrivals;
    phase = elim h.phase [
      | idle a b c e ↦ idle a b c e
      | transmitting p dest until a b c e ↦ transmitting p dest until a b c e
    ];
  }

  deliver-Implements :
      (d : Device) (s : Server (pk.Packet × ℕ)) (original p : pk.Packet) (protocol : ℕ)
      → Implements pk qs port d s
      → Implements pk qs port (deliver pk qs d original (p, protocol)) s
  unfolding deliver
  deliver-Implements d s original p protocol h = record {
    queued = h.queued;
    dests = h.dests;
    sent = h.sent;
    arrivals = h.arrivals;
    phase = elim h.phase [
      | idle a b c e ↦ idle a b c e
      | transmitting q dest until a b c e ↦ transmitting q dest until a b c e
    ];
  }

  receive-Implements :
      (is_corrupt : pk.Packet → Bool) (d : Device) (s : Server (pk.Packet × ℕ)) (packet : pk.Packet)
      → Implements pk qs port d s
      → Ensures (λ t. Implements pk qs port t s) (receive pk qs is_corrupt d packet)
  unfolding receive
  receive-Implements is_corrupt d s packet h = by_test (is_corrupt packet)
    where
      by_test :
          (corrupt : Bool)
          → Ensures
              (λ t. Implements pk qs port t s)
              (if corrupt
                then ok (trace d (phy_rx_drop packet ∷ []))
                else (process_header pk packet >>= λ contents. ok (
                    deliver pk qs
                      (trace d (sniffer packet ∷ promisc_sniffer packet ∷ phy_rx_end packet ∷ []))
                      packet
                      contents)))
      by_test true = returns _ (trace-Implements pk qs port d s _ h)
      by_test false = bind (process_header pk packet) _ λ contents e. returns _ (
          deliver-Implements _ s packet contents.0 contents.1 (trace-Implements pk qs port d s _ h))

  attached-IsServer :
      (bps : ℕ → ℕ) (gap_ns : ℕ) (q : qs.Queue)
      → qs.contents q ≡ []
      → IsServer 0 [] (attach (new_gsl_net_device bps gap_ns q))
  unfolding attach new_gsl_net_device
  attached-IsServer bps gap_ns q e = record {
    server = idle_server (pk.Packet × ℕ);
    implements = record {
      queued = e;
      dests = refl;
      sent = refl;
      arrivals = tt;
      phase = idle refl refl refl refl;
    };
    serving = idle_server-IsServing (pk.Packet × ℕ) 0;
  }

  -- An event of the list is the one at the end of the present sending.
  Implements-busy_until :
      (d : Device) (s : Server (pk.Packet × ℕ)) (until : ℕ) (dest : ℕ) (events : List (ℕ × ℕ))
      → Implements pk qs port d s
      → d.scheduled ≡ (until, dest) ∷ events
      → (s.busy_until ≡ some until) × (events ≡ [])
  Implements-busy_until d s until dest events h e = elim h.phase [
    | idle a b c f ↦ cc
    | transmitting p dest' u a b c f ↦
        let until_same : u ≡ until = cc in
        let no_more : events ≡ [] = cc in (f ∙ ap some until_same, no_more)
  ]

  IsNotAfter-busy_until :
      (d : Device) (s : Server (pk.Packet × ℕ)) (later until : ℕ)
      → Implements pk qs port d s
      → IsNotAfter later d.scheduled
      → s.busy_until ≡ some until
      → later ≤ until
  IsNotAfter-busy_until d s later until h le e = elim h.phase [
    | idle a b c f ↦ cc
    | transmitting p dest' u a b c f ↦
        let same : u ≡ until = cc in subst (λ x. later ≤ x) same (subst (IsNotAfter later) c le).0
  ]

  pub send_step-IsServer :
      {now : ℕ} {accepted : List (pk.Packet × ℕ)} {d : Device} (later : ℕ) (packet : pk.Packet)
      (dest : ℕ) (proto ppp : ℕ)
      → IsServer now accepted d
      → now ≤ later
      → IsNotAfter later d.scheduled
      → ether_to_ppp proto ≡ ok ppp
      → Tries port
          (λ (t : Device × Bool).
            IsServer later (accepted ++ accepted_items pk qs d packet dest proto) t.0)
          (dest ∷ [])
          (send pk qs port d later packet dest proto)
  send_step-IsServer {now} {accepted} {d} later packet dest proto ppp h le before e =
      let s = h.server in
      let in_time =
        wait-IsServing now later accepted s h.serving le
          (λ until b. IsNotAfter-busy_until d s later until h.implements before b) in
      Tries-weaken
        (λ t implements. record {
          server = accept_all s later (duration_of pk d) (accepted_items pk qs d packet dest proto);
          implements = implements;
          serving = accept_all-IsServing later (duration_of pk d) accepted _ s in_time;
        })
        (send-Implements pk qs port fifo d s later packet dest proto h.implements
          (λ b. (idle-of_phase now accepted s h.serving b).0) (add_header-ok pk packet proto ppp e))

  pub complete_step-IsServer :
      {now : ℕ} {accepted : List (pk.Packet × ℕ)} {d : Device} (until : ℕ) (dest : ℕ)
      (events : List (ℕ × ℕ))
      → IsServer now accepted d
      → d.scheduled ≡ (until, dest) ∷ events
      → Tries port
          (IsServer until accepted)
          d.queue_dests
          (transmit_complete pk qs port (record d { scheduled = events }) until)
  complete_step-IsServer {now} {accepted} {d} until dest events h e =
      let s = h.server in
      let event = Implements-busy_until d s until dest events h.implements e in
      subst
        (λ l.
          Tries port (IsServer until accepted) d.queue_dests
            (transmit_complete pk qs port (record d { scheduled = l }) until))
        (sym event.1)
        (Tries-weaken
          (λ t implements. record {
            server = finish s until (duration_of pk d);
            implements = implements;
            serving = finish-IsServing now until (duration_of pk d) accepted s h.serving event.0;
          })
          (transmit_complete-Implements pk qs port fifo d s until h.implements event.0))

  -- If the device's queue is first in, first out, then in every run, of sends of IPv4 and IPv6
  -- packets and ends of transmissions in the order of time, of changes of the rate and of arriving
  -- packets, all of which return, the device implements a one-line server that has taken in the same
  -- packets, with their headers and in the same order, namely those for which the queue had room; and
  -- each packet that it has handed to its channel arrives at the device attached with the packet's
  -- destination, after the time of sending and the delay.
  pub Run-IsServer :
      {now : ℕ} {accepted : List (pk.Packet × ℕ)} {d : Device}
      → Run pk qs port now accepted d
      → IsServer now accepted d
  Run-IsServer (attached bps gap_ns q e) = attached-IsServer bps gap_ns q e
  Run-IsServer (sent later packet dest proto ppp t r le before e eq) =
      Tries-ok t (send_step-IsServer later packet dest proto ppp (Run-IsServer r) le before e) eq
  Run-IsServer (completed until dest events t r e eq) =
      Tries-ok t (complete_step-IsServer until dest events (Run-IsServer r) e) eq
  Run-IsServer (rate_set bps r) =
      let h = Run-IsServer r in
      record {
        server = h.server;
        implements = set_data_rate-Implements _ h.server bps h.implements;
        serving = h.serving;
      }
  Run-IsServer (arrived is_corrupt packet t r eq) =
      let h = Run-IsServer r in
      record {
        server = h.server;
        implements = (receive-Implements is_corrupt _ h.server packet h.implements).holds t eq;
        serving = h.serving;
      }
