-- ===== src/Satellite/Gsl/Refines.antt =====
-- gsl-net-device.cc against Server: `Send` and `TransmitComplete` are the operations of a server
-- whose items are packets with their destinations.
use hypatia_multicast.Base.{
  ℕ, ◌+◌, ◌≡◌, refl, ap, ◌∙◌, Bool, true, List, [], ◌∷◌, ◌++◌, map, Option, some, none, Result, ok,
  err, ◌>>=◌, assertion, find, sym, subst, Yields, yields, yields-ok, Yields-bind,
}
use hypatia_multicast.Satellite.{
  ready, busy, Packets, Queues, Transmission, Trace, sniffer, promisc_sniffer, front, pop,
}
use hypatia_multicast.Satellite.Server.{Server, start_item}
use hypatia_multicast.Satellite.Gsl.{
  GslNetDevice, trace, begin_transmission, end_transmit_start, transmit_start, transmit_next,
}
use hypatia_multicast.Satellite.Gsl.Channel.{
  Port, IsReachable, reached, aborted, call_channel-Outcome,
}

-- The device's queue and its queue of destinations hold what waits; one event is scheduled just
-- when a packet is being transmitted.
pub data IsPhase {P Q D : Type 0} (d : GslNetDevice P Q D) (busy_until : Option ℕ) : Type 0 where
  idle :
      d.tx_machine_state ≡ ready
      → d.current_pkt ≡ none
      → d.scheduled ≡ []
      → busy_until ≡ none
      → IsPhase d busy_until
  transmitting :
      (p : P) (dest : ℕ) (until : ℕ)
      → d.tx_machine_state ≡ busy
      → d.current_pkt ≡ some p
      → d.scheduled ≡ (until, dest) ∷ []
      → busy_until ≡ some until
      → IsPhase d busy_until

-- A transmission with the interframe gap after it.
abbrev pub sending_of : {P D : Type 0} → ℕ → Transmission P D → ℕ × ℕ × (P × ℕ)
sending_of gap_ns t = (t.start_ns, t.tx_time_ns + gap_ns, (t.packet, t.dest))

abbrev pub duration_of :
    (pk : Packets) {Q D : Type 0} → GslNetDevice pk.Packet Q D → pk.Packet × ℕ → ℕ
duration_of pk d i = d.bps (pk.get_size i.0) + d.interframe_gap_ns

-- The arrival is at the device that the channel has for the address, when the packet has been sent
-- and the delay at the start has passed.
abbrev pub IsArrival : {P D : Type 0} → Port D → Transmission P D → Type 0
IsArrival port t =
    (find t.dest port.channel.link ≡ some t.device)
    × (t.arrival_ns ≡ t.start_ns + (t.tx_time_ns + port.delay_ns t.start_ns port.self t.device))

abbrev pub AreArrivals : {P D : Type 0} → Port D → List (Transmission P D) → Type 0
AreArrivals port [] = Unit
AreArrivals port (t ∷ ts) = IsArrival port t × AreArrivals port ts

AreArrivals-append :
    {P D : Type 0} (port : Port D) (ts : List (Transmission P D)) (t : Transmission P D)
    → AreArrivals port ts
    → IsArrival port t
    → AreArrivals port (ts ++ t ∷ [])
AreArrivals-append port [] t h e = (e, tt)
AreArrivals-append port (u ∷ ts) t h e = (h.0, AreArrivals-append port ts t h.1 e)

pub record Implements (pk : Packets) (qs : Queues pk.Packet) {D : Type 0} (port : Port D)
    (d : GslNetDevice pk.Packet qs.Queue D) (s : Server (pk.Packet × ℕ)) : Type 0 where
  pub queued : qs.contents d.queue ≡ map (λ i. i.0) s.waiting
  pub dests : d.queue_dests ≡ map (λ i. i.1) s.waiting
  pub sent : map (sending_of d.interframe_gap_ns) d.transmitted ≡ s.sent
  pub arrivals : AreArrivals port d.transmitted
  pub phase : IsPhase d s.busy_until

-- What an operation that hands a packet to the channel does: it returns, or it aborts because the
-- first one of these destinations, the packet's, cannot be reached.
pub data Tries {B : Type 0} {D : Type 0} (port : Port D) (P : B → Type 0) (dests : List ℕ)
    (r : Result B) : Type 0 where
  returned : Yields P r → Tries port P dests r
  unreachable :
      (dest : ℕ) (rest : List ℕ)
      → dests ≡ dest ∷ rest
      → ¬ IsReachable port dest
      → r ≡ err assertion
      → Tries port P dests r

pub Tries-ok :
    {B D : Type 0} {port : Port D} {P : B → Type 0} {dests : List ℕ} {r : Result B} (b : B)
    → Tries port P dests r
    → r ≡ ok b
    → P b
Tries-ok b (returned y) e = yields-ok b y e
Tries-ok b (unreachable dest rest q cut x) e = cc

pub Tries-map :
    {B C D : Type 0} {port : Port D} {P : B → Type 0} {Q : C → Type 0} {dests : List ℕ}
    {r : Result B} (f : B → C)
    → ((b : B) → P b → Q (f b))
    → Tries port P dests r
    → Tries port Q dests (r >>= λ b. ok (f b))
Tries-map f keep (returned y) = returned (Yields-bind _ _ y (λ b h. yields (f b) (keep b h)))
Tries-map f keep (unreachable dest rest q cut x) = unreachable dest rest q cut (rw x refl)

pub Tries-weaken :
    {B D : Type 0} {port : Port D} {P Q : B → Type 0} {dests : List ℕ} {r : Result B}
    → ((b : B) → P b → Q b)
    → Tries port P dests r
    → Tries port Q dests r
Tries-weaken keep (returned y) =
    returned (record { value = y.value; is_ok = y.is_ok; holds = keep y.value y.holds })
Tries-weaken keep (unreachable dest rest q cut x) = unreachable dest rest q cut x

-- More destinations wait behind the first one.
pub Tries-from :
    {B D : Type 0} {port : Port D} {P : B → Type 0} {dest : ℕ} {rest dests : List ℕ} {r : Result B}
    → dests ≡ dest ∷ rest
    → Tries port P (dest ∷ []) r
    → Tries port P dests r
Tries-from e (returned y) = returned y
Tries-from {dest} {rest} e (unreachable other others q cut x) =
    let same : dest ≡ other = cc in unreachable other rest (e ∙ ap (λ d. d ∷ rest) same) cut x

-- If they can all be reached, it returns.
pub Tries-Yields :
    {B D : Type 0} {port : Port D} {P : B → Type 0} {dests : List ℕ} {r : Result B}
    → ((dest : ℕ) (rest : List ℕ) → dests ≡ dest ∷ rest → IsReachable port dest)
    → Tries port P dests r
    → Yields P r
Tries-Yields reachable (returned y) = y
Tries-Yields reachable (unreachable dest rest q cut x) = absurd (cut (reachable dest rest q))

pub map-append {ℓ κ} :
    {X : Type ℓ} {Y : Type κ} (f : X → Y) (xs : List X) (x : X)
    → map f (xs ++ x ∷ []) ≡ map f xs ++ f x ∷ []
map-append f [] x = refl
map-append f (y ∷ ys) x = ap (λ l. f y ∷ l) (map-append f ys x)

module _ (pk : Packets) (qs : Queues pk.Packet) {D : Type 0} (port : Port D) where
  abbrev Device : Type 0
  Device = GslNetDevice pk.Packet qs.Queue D

  abbrev Spec : Type 0
  Spec = Server (pk.Packet × ℕ)

  -- The device is free, with these packets in its queue and these transmissions made.
  pub record IsFree (d : Device) (waiting : List (pk.Packet × ℕ))
      (sent : List (ℕ × ℕ × (pk.Packet × ℕ))) : Type 0 where
    pub free : d.tx_machine_state ≡ ready
    pub packets : qs.contents d.queue ≡ map (λ i. i.0) waiting
    pub destinations : d.queue_dests ≡ map (λ i. i.1) waiting
    pub transmissions : map (sending_of d.interframe_gap_ns) d.transmitted ≡ sent
    pub arrived : AreArrivals port d.transmitted
    pub none_scheduled : d.scheduled ≡ []

  transmission-Implements :
      (d : Device) (s : Spec) (now : ℕ) (i : pk.Packet × ℕ) (dst : D)
      → IsFree d s.waiting s.sent
      → find i.1 port.channel.link ≡ some dst
      → Implements pk qs port
          (end_transmit_start pk qs
            (begin_transmission pk qs d now i.0 i.1)
            now
            i.0
            i.1
            ((dst, d.bps (pk.get_size i.0) + port.delay_ns now port.self dst), true)).0
          (start_item s now (duration_of pk d i) i)
  unfolding begin_transmission end_transmit_start
  transmission-Implements d s now i dst h found =
      let duration = duration_of pk d i in
      let t : Transmission pk.Packet D = record {
        start_ns = now;
        packet = i.0;
        dest = i.1;
        tx_time_ns = d.bps (pk.get_size i.0);
        device = dst;
        arrival_ns = now + (d.bps (pk.get_size i.0) + port.delay_ns now port.self dst);
      } in
      record {
        queued = h.packets;
        dests = h.destinations;
        sent =
            map-append (sending_of d.interframe_gap_ns) d.transmitted t
            ∙ ap (λ l. l ++ (now, duration, i) ∷ []) h.transmissions;
        arrivals = AreArrivals-append port d.transmitted t h.arrived (found, refl);
        phase =
            transmitting i.0 i.1 (now + duration) refl refl
              (ap (λ l. l ++ (now + duration, i.1) ∷ []) h.none_scheduled) refl;
      }

  pub trace-Implements :
      (d : Device) (s : Spec) (events : List (Trace pk.Packet))
      → Implements pk qs port d s
      → Implements pk qs port (trace d events) s
  unfolding trace
  trace-Implements d s events h = record {
    queued = h.queued;
    dests = h.dests;
    sent = h.sent;
    arrivals = h.arrivals;
    phase = elim h.phase [
      | idle a b c e ↦ idle a b c e
      | transmitting p dest until a b c e ↦ transmitting p dest until a b c e
    ];
  }

  abbrev Starts : Device → Spec → ℕ → pk.Packet × ℕ → Result (Device × Bool) → Type 0
  Starts d s now i =
      Tries port (λ t. Implements pk qs port t.0 (start_item s now (duration_of pk d i) i))
        (i.1 ∷ [])

  pub transmit_start-Implements :
      (d : Device) (s : Spec) (now : ℕ) (i : pk.Packet × ℕ)
      → IsFree d s.waiting s.sent
      → Starts d s now i (transmit_start pk qs port d now i.0 i.1)
  unfolding transmit_start
  transmit_start-Implements d s now i h =
      elim (call_channel-Outcome port now i.1 (d.bps (pk.get_size i.0))) [
        | reached dst found e ↦ returned (record {
          value =
              end_transmit_start pk qs (begin_transmission pk qs d now i.0 i.1) now i.0 i.1
                ((dst, d.bps (pk.get_size i.0) + port.delay_ns now port.self dst), true);
          is_ok = rw (h.free, e) refl;
          holds = transmission-Implements d s now i dst h found;
        })
        | aborted cut e ↦ unreachable i.1 [] refl cut (rw (h.free, e) refl)
      ]

  -- The packet that leaves the queue goes to the destination that has waited longest.
  pub transmit_next-Implements :
      (d : Device) (s : Spec) (now : ℕ) (i : pk.Packet × ℕ) (q : qs.Queue)
      → IsFree d (i ∷ s.waiting) s.sent
      → qs.contents q ≡ map (λ i. i.0) s.waiting
      → Starts d s now i (transmit_next pk qs port (record d { queue = q }) now i.0)
  unfolding transmit_next trace
  transmit_next-Implements d s now i q h eq =
      let first : front d.queue_dests ≡ some i.1 = rw (h.destinations) refl in
      let others : pop d.queue_dests ≡ map (λ i. i.1) s.waiting = rw (h.destinations) refl in
      subst (Starts d s now i) (sym (rw first refl)) (
        transmit_start-Implements
          (trace (record d { queue = q; queue_dests = pop d.queue_dests })
            (sniffer i.0 ∷ promisc_sniffer i.0 ∷ []))
          s now i
          (record {
            free = h.free;
            packets = eq;
            destinations = others;
            transmissions = h.transmissions;
            arrived = h.arrived;
            none_scheduled = h.none_scheduled;
          }))
