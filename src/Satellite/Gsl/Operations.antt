-- ===== src/Satellite/Gsl/Operations.antt =====
-- gsl-net-device.cc: `Send` and `TransmitComplete` implement the operations of a server that take
-- an item in and end a sending.
use hypatia_multicast.Base.{
  ℕ, ◌≡◌, refl, sym, ap, subst, ◌∙◌, Bool, true, false, List, [], ◌∷◌, ◌++◌, map, Option, some,
  none, Result, ok, err, ◌>>=◌, if◌then◌else◌, not, Yields, yields,
}
use hypatia_multicast.Satellite.{
  ready, busy, Packets, Queues, IsFifo, Trace, add_header, mac_tx, mac_tx_drop,
}
use hypatia_multicast.Satellite.Server.{
  Server, accept, accept_all, accept-idle, accept-busy, finish, finish-all_sent, finish-next,
}
use hypatia_multicast.Satellite.Gsl.{
  GslNetDevice, trace, transmit_next, end_transmission, transmit_complete, send_enqueued, send,
}
use hypatia_multicast.Satellite.Gsl.Refines.{
  Implements, idle, transmitting, duration_of, map-append, trace-Implements,
  transmit_next-Implements, Tries, returned, Tries-map, Tries-from,
}
use hypatia_multicast.Satellite.Gsl.Channel.{Port}

-- The packet with its header, if `Send` takes it in: the link is up and the queue has room.
unfoldable pub accepted_items :
    (pk : Packets) (qs : Queues pk.Packet) {D : Type 0}
    → GslNetDevice pk.Packet qs.Queue D
    → pk.Packet
    → ℕ
    → ℕ
    → List (pk.Packet × ℕ)
unfolding add_header
accepted_items pk qs d packet dest proto =
    if d.link_up
    then elim (add_header pk packet proto) [
      | err x ↦ []
      | ok p ↦ elim (qs.enqueue p d.queue) [ none ↦ [] | some q ↦ (p, dest) ∷ [] ]
    ]
    else []

module _ (pk : Packets) (qs : Queues pk.Packet) {D : Type 0} (port : Port D) where
  abbrev Device : Type 0
  Device = GslNetDevice pk.Packet qs.Queue D

  abbrev Spec : Type 0
  Spec = Server (pk.Packet × ℕ)

  -- The device when a packet has entered its queue.
  abbrev with_packet : Device → qs.Queue → ℕ → List (Trace pk.Packet) → Device
  with_packet d q dest events =
      trace (record d { queue = q; queue_dests = d.queue_dests ++ dest ∷ [] }) events

  abbrev Accepts : Device → Spec → ℕ → pk.Packet × ℕ → Result (Device × Bool) → Type 0
  Accepts d s now i =
      Tries port (λ t. Implements pk qs port t.0 (accept s now (duration_of pk d) i)) (i.1 ∷ [])

  module _ (fifo : IsFifo qs) where
    -- A queue that is not empty gives its oldest packet.
    dequeue-first :
        (q : qs.Queue) (p : pk.Packet) (rest : List pk.Packet)
        → qs.contents q ≡ p ∷ rest
        → (r : qs.Queue) × (qs.dequeue q ≡ some (p, r)) × (qs.contents r ≡ rest)
    dequeue-first q p rest e = by_cases (qs.dequeue q) refl
      where
        by_cases :
            (o : Option (pk.Packet × qs.Queue))
            → qs.dequeue q ≡ o
            → (r : qs.Queue) × (qs.dequeue q ≡ some (p, r)) × (qs.contents r ≡ rest)
        by_cases none eq = let empty = fifo.dequeue-none q eq in cc
        by_cases (some (p', r)) eq =
            let first = fifo.dequeue-some p' q r eq in
            let same : p' ≡ p = cc in
            let others : qs.contents r ≡ rest = cc in (r, eq ∙ ap (λ x. some (x, r)) same, others)

    send_enqueued-ready :
        (d : Device) (now : ℕ) (p : pk.Packet) (r : qs.Queue)
        → d.tx_machine_state ≡ ready
        → qs.dequeue d.queue ≡ some (p, r)
        → send_enqueued pk qs port d now ≡ transmit_next pk qs port (record d { queue = r }) now p
    unfolding send_enqueued
    send_enqueued-ready d now p r st e = rw (st, e) refl

    send_enqueued-busy :
        (d : Device) (now : ℕ)
        → d.tx_machine_state ≡ busy
        → send_enqueued pk qs port d now ≡ ok (d, true)
    unfolding send_enqueued
    send_enqueued-busy d now st = rw st refl

    send_enqueued-Implements :
        (d : Device) (s : Spec) (now : ℕ) (i : pk.Packet × ℕ) (q : qs.Queue)
        (events : List (Trace pk.Packet))
        → Implements pk qs port d s
        → (s.busy_until ≡ none → s.waiting ≡ [])
        → qs.enqueue i.0 d.queue ≡ some q
        → Accepts d s now i (send_enqueued pk qs port (with_packet d q i.1 events) now)
    unfolding trace
    send_enqueued-Implements d s now i q events h empty e = elim h.phase [
      | idle st cur sch b ↦
          let w = empty b in
          let packets : qs.contents q ≡ i.0 ∷ map (λ i. i.0) s.waiting =
            fifo.enqueue-contents i.0 d.queue q e ∙ ap (λ l. l ++ i.0 ∷ []) h.queued ∙ rw w refl in
          let dests : d.queue_dests ++ i.1 ∷ [] ≡ i.1 ∷ map (λ i. i.1) s.waiting =
            ap (λ l. l ++ i.1 ∷ []) h.dests ∙ rw w refl in
          let first = dequeue-first q i.0 _ packets in
          let d' = with_packet d q i.1 events in
          subst (λ r. Accepts d s now i r) (sym (send_enqueued-ready d' now i.0 first.0 st first.1))
            (subst
              (λ s'.
                Tries port (λ t. Implements pk qs port t.0 s') (i.1 ∷ [])
                  (transmit_next pk qs port (record d' { queue = first.0 }) now i.0))
              (sym (accept-idle s now (duration_of pk d) i b))
              (transmit_next-Implements pk qs port d' s now i first.0
                (record {
                  free = st;
                  packets = packets;
                  destinations = dests;
                  transmissions = h.sent;
                  arrived = h.arrivals;
                  none_scheduled = sch;
                })
                first.2))
      | transmitting p dest until st cur sch b ↦
          subst (λ r. Accepts d s now i r)
            (sym (send_enqueued-busy (with_packet d q i.1 events) now st))
            (returned (
              yields _ (
                subst (Implements pk qs port (with_packet d q i.1 events))
                  (sym (accept-busy s now until (duration_of pk d) i b))
                  (record {
                    queued =
                        fifo.enqueue-contents i.0 d.queue q e
                        ∙ ap (λ l. l ++ i.0 ∷ []) h.queued
                        ∙ sym (map-append (λ i. i.0) s.waiting i);
                    dests =
                        ap (λ l. l ++ i.1 ∷ []) h.dests ∙ sym (map-append (λ i. i.1) s.waiting i);
                    sent = h.sent;
                    arrivals = h.arrivals;
                    phase = transmitting p dest until st cur sch b;
                  }))))
    ]

    -- `Send` on every branch.
    pub send-Implements :
        (d : Device) (s : Spec) (now : ℕ) (packet : pk.Packet) (dest : ℕ) (proto : ℕ)
        → Implements pk qs port d s
        → (s.busy_until ≡ none → s.waiting ≡ [])
        → Yields (λ p. Unit {0}) (add_header pk packet proto)
        → Tries port
            (λ (t : Device × Bool).
              Implements pk qs port t.0
                (accept_all s now (duration_of pk d) (accepted_items pk qs d packet dest proto)))
            (dest ∷ [])
            (send pk qs port d now packet dest proto)
    unfolding send trace accepted_items
    send-Implements d s now packet dest proto h empty header = by_link d.link_up
      where
        by_queue :
            (o : Option qs.Queue)
            → qs.enqueue header.value d.queue ≡ o
            → Tries port
                (λ (t : Device × Bool). Implements pk qs port t.0 (
                  accept_all s now
                    (duration_of pk d)
                    (elim o [ none ↦ [] | some q ↦ (header.value, dest) ∷ [] ])))
                (dest ∷ [])
                (elim o [
                  | none ↦ ok (
                    trace (trace d (mac_tx header.value ∷ [])) (mac_tx_drop header.value ∷ []),
                    false,
                  )
                  | some q ↦
                      send_enqueued pk qs port (with_packet d q dest (mac_tx header.value ∷ [])) now
                ])
        by_queue none e =
            returned
              (yields _ (trace-Implements pk qs port _ _ _ (trace-Implements pk qs port d s _ h)))
        by_queue (some q) e = send_enqueued-Implements d s now (header.value, dest) q _ h empty e

        by_link :
            (up : Bool)
            → Tries port
                (λ (t : Device × Bool). Implements pk qs port t.0 (
                  accept_all s now (duration_of pk d) (
                    if up
                    then elim (add_header pk packet proto) [
                      | err x ↦ []
                      | ok p ↦ elim (qs.enqueue p d.queue) [ none ↦ [] | some q ↦ (p, dest) ∷ [] ]
                    ]
                    else [])))
                (dest ∷ [])
                (if not up
                  then ok (trace d (mac_tx_drop packet ∷ []), false)
                  else (add_header pk packet proto >>= λ p. elim (qs.enqueue p d.queue) [
                    | none ↦ ok (trace (trace d (mac_tx p ∷ [])) (mac_tx_drop p ∷ []), false)
                    | some q ↦ send_enqueued pk qs port (with_packet d q dest (mac_tx p ∷ [])) now
                  ]))
        by_link false = returned (yields _ (trace-Implements pk qs port d s _ h))
        by_link true = rw (header.is_ok) (by_queue (qs.enqueue header.value d.queue) refl)

    dequeue-empty : (q : qs.Queue) → qs.contents q ≡ [] → qs.dequeue q ≡ none
    dequeue-empty q e = by_cases (qs.dequeue q) refl
      where
        by_cases : (o : Option (pk.Packet × qs.Queue)) → qs.dequeue q ≡ o → qs.dequeue q ≡ none
        by_cases none eq = eq
        by_cases (some t) eq = let first = fifo.dequeue-some t.0 q t.1 eq in cc

    transmit_complete-last :
        (d : Device) (now : ℕ) (p : pk.Packet)
        → d.tx_machine_state ≡ busy
        → d.current_pkt ≡ some p
        → qs.dequeue d.queue ≡ none
        → transmit_complete pk qs port d now ≡ ok (end_transmission pk qs d p)
    unfolding transmit_complete
    transmit_complete-last d now p st cur e = rw (st, cur, e) refl

    transmit_complete-next :
        (d : Device) (now : ℕ) (p : pk.Packet) (next : pk.Packet) (r : qs.Queue)
        → d.tx_machine_state ≡ busy
        → d.current_pkt ≡ some p
        → qs.dequeue d.queue ≡ some (next, r)
        → transmit_complete pk qs port d now ≡ (
            transmit_next pk qs port (record (end_transmission pk qs d p) { queue = r }) now next
            >>= λ t. ok t.0)
    unfolding transmit_complete
    transmit_complete-next d now p next r st cur e = rw (st, cur, e) refl

    -- The event of a transmission's end, which has left the list of events.
    pub transmit_complete-Implements :
        (d : Device) (s : Spec) (until : ℕ)
        → Implements pk qs port d s
        → s.busy_until ≡ some until
        → Tries port
            (λ t. Implements pk qs port t (finish s until (duration_of pk d)))
            d.queue_dests
            (transmit_complete pk qs port (record d { scheduled = [] }) until)
    unfolding end_transmission
    transmit_complete-Implements d s until h b = elim h.phase [
      | idle st cur sch b' ↦ cc
      | transmitting p dest u st cur sch b' ↦ by_waiting p st cur s.waiting refl
    ]
      where
        by_waiting :
            (p : pk.Packet)
            → d.tx_machine_state ≡ busy
            → d.current_pkt ≡ some p
            → (w : List (pk.Packet × ℕ)) → s.waiting ≡ w
            → Tries port
                (λ t. Implements pk qs port t (finish s until (duration_of pk d)))
                d.queue_dests
                (transmit_complete pk qs port (record d { scheduled = [] }) until)
        by_waiting p st cur [] w =
            let empty = dequeue-empty d.queue (h.queued ∙ ap (map (λ i. i.0)) w) in
            subst (Tries port _ d.queue_dests)
              (sym (transmit_complete-last (record d { scheduled = [] }) until p st cur empty))
              (returned (
                yields _ (
                  subst (Implements pk qs port _)
                    (sym (finish-all_sent s until (duration_of pk d) w))
                    (record {
                      queued = h.queued;
                      dests = h.dests;
                      sent = h.sent;
                      arrivals = h.arrivals;
                      phase = idle refl refl refl refl;
                    }))))
        by_waiting p st cur (i ∷ rest) w =
            let first = dequeue-first d.queue i.0 _ (h.queued ∙ ap (map (λ i. i.0)) w) in
            subst (Tries port _ d.queue_dests)
              (sym (
                transmit_complete-next (record d { scheduled = [] }) until p i.0 first.0 st cur
                  first.1))
              (Tries-from (h.dests ∙ ap (map (λ i. i.1)) w) (
                Tries-map {Q = λ t. Implements pk qs port t (finish s until (duration_of pk d))}
                  (λ t. t.0)
                  (λ t i'.
                    subst (Implements pk qs port t.0)
                      (sym (finish-next s until (duration_of pk d) i rest w)) i')
                  (transmit_next-Implements pk qs port
                    (end_transmission pk qs (record d { scheduled = [] }) p)
                    (record s { waiting = rest }) until i first.0
                    (record {
                      free = refl;
                      packets = h.queued ∙ ap (map (λ i. i.0)) w;
                      destinations = h.dests ∙ ap (map (λ i. i.1)) w;
                      transmissions = h.sent;
                      arrived = h.arrivals;
                      none_scheduled = refl;
                    })
                    first.2)))
