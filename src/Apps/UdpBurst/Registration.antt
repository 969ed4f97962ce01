-- ===== src/Apps/UdpBurst/Registration.antt =====
-- The registration of bursts in udp-burst-application.cc, before the application starts.
use hypatia_multicast.Base.{
  ℕ, zero, suc, ◌≤◌, ◌≡◌, refl, subst, Bool, false, List, [], ◌∷◌, ◌++◌, some, none, ok, ltb, ◌==◌,
  not, arith, get_elem?, Ensures, guarded, returns, runtime_error, assertion,
}
use hypatia_multicast.Schedule.UdpBurst.{UdpBurstInfo}
use hypatia_multicast.Apps.UdpBurst.{
  OutgoingBurst, UdpBurstApplication, new_udp_burst_application, new_outgoing_burst, last_start_ns,
  register_outgoing_burst, register_incoming_burst,
}

module _ {D A : Type 0} where
  abbrev pub IsAscending : List (OutgoingBurst D A) → Type 0
  IsAscending [] = Unit
  IsAscending (b ∷ []) = Unit
  IsAscending (b ∷ c ∷ rest) =
      (b.info.start_time_ns ≤ c.info.start_time_ns) × IsAscending (c ∷ rest)

  abbrev pub AllNew : List (OutgoingBurst D A) → Type 0
  AllNew [] = Unit
  AllNew (b ∷ rest) =
      (b.packets_sent_counter ≡ 0) × (b.event ≡ none) × (b.packets ≡ []) × AllNew rest

  IsAscending-append :
      (bs : List (OutgoingBurst D A)) (b : OutgoingBurst D A)
      → IsAscending bs
      → last_start_ns bs ≤ b.info.start_time_ns
      → IsAscending (bs ++ b ∷ [])
  unfolding last_start_ns
  IsAscending-append [] b h le = tt
  IsAscending-append (c ∷ []) b h le = (le, tt)
  IsAscending-append (c ∷ d ∷ rest) b h le = (h.0, IsAscending-append (d ∷ rest) b h.1 le)

  AllNew-append :
      (bs : List (OutgoingBurst D A)) (info : UdpBurstInfo D) (target : A) (enable : Bool)
      → AllNew bs
      → AllNew (bs ++ new_outgoing_burst info target enable ∷ [])
  AllNew-append [] info target enable h = (refl, refl, refl, tt)
  AllNew-append (c ∷ rest) info target enable h =
      (h.0, h.1, h.2, AllNew-append rest info target enable h.3)

  pub AllNew-get :
      (bs : List (OutgoingBurst D A)) (i : ℕ) (b : OutgoingBurst D A)
      → AllNew bs
      → get_elem? bs i ≡ some b
      → (b.packets_sent_counter ≡ 0) × (b.event ≡ none) × (b.packets ≡ [])
  AllNew-get [] i b h e = cc
  AllNew-get (c ∷ rest) zero b h e =
      let same : c ≡ b = cc in
      subst (λ x. (x.packets_sent_counter ≡ 0) × (x.event ≡ none) × (x.packets ≡ [])) same
        (h.0, h.1, h.2)
  AllNew-get (c ∷ rest) (suc i) b h e = AllNew-get rest i b h.3 e

  pub IsAscending-get :
      (bs : List (OutgoingBurst D A)) (i : ℕ) (b c : OutgoingBurst D A)
      → IsAscending bs
      → get_elem? bs i ≡ some b
      → get_elem? bs (suc i) ≡ some c
      → b.info.start_time_ns ≤ c.info.start_time_ns
  IsAscending-get [] i b c h e f = cc
  IsAscending-get (x ∷ []) i b c h e f = cc
  IsAscending-get (x ∷ y ∷ rest) zero b c h e f =
      let first : x ≡ b = cc in
      let second : y ≡ c = cc in
      subst (λ k. k.info.start_time_ns ≤ c.info.start_time_ns) first
        (subst (λ k. x.info.start_time_ns ≤ k.info.start_time_ns) second h.0)
  IsAscending-get (x ∷ y ∷ rest) (suc i) b c h e f = IsAscending-get (y ∷ rest) i b c h.1 e f

  -- Before the start.
  pub data Registered : UdpBurstApplication D A → Type 0 where
    created : (node_id : ℕ) → Registered (new_udp_burst_application D A node_id)
    outgoing :
        {s : UdpBurstApplication D A} (info : UdpBurstInfo D) (target : A) (enable : Bool)
        (t : UdpBurstApplication D A)
        → Registered s
        → register_outgoing_burst s info target enable ≡ ok t
        → Registered t
    incoming :
        {s : UdpBurstApplication D A} (info : UdpBurstInfo D) (enable : Bool)
        (t : UdpBurstApplication D A)
        → Registered s
        → register_incoming_burst s info enable ≡ ok t
        → Registered t

  pub record IsReady (s : UdpBurstApplication D A) : Type 0 where
    pub ascending : IsAscending s.outgoing_bursts
    pub all_new : AllNew s.outgoing_bursts
    pub at_first : s.next_internal_burst_idx ≡ 0

  register_outgoing_burst-IsReady :
      (s : UdpBurstApplication D A) (info : UdpBurstInfo D) (target : A) (enable : Bool)
      → IsReady s
      → Ensures IsReady (register_outgoing_burst s info target enable)
  unfolding register_outgoing_burst
  register_outgoing_burst-IsReady s info target enable h =
      guarded (not (info.from_node_id == s.node_id)) assertion _ λ own.
        guarded (ltb info.start_time_ns (last_start_ns s.outgoing_bursts)) runtime_error _
          λ (in_order : ltb info.start_time_ns (last_start_ns s.outgoing_bursts) ≡ false).
            returns _ (record {
              ascending =
                  IsAscending-append s.outgoing_bursts _ h.ascending (ground (arith, in_order));
              all_new = AllNew-append s.outgoing_bursts info target enable h.all_new;
              at_first = h.at_first;
            })

  register_incoming_burst-IsReady :
      (s : UdpBurstApplication D A) (info : UdpBurstInfo D) (enable : Bool)
      → IsReady s
      → Ensures IsReady (register_incoming_burst s info enable)
  unfolding register_incoming_burst
  register_incoming_burst-IsReady s info enable h =
      guarded (not (info.to_node_id == s.node_id)) assertion _ λ own.
        returns _ (record { ascending = h.ascending; all_new = h.all_new; at_first = h.at_first })

  pub Registered-IsReady : {s : UdpBurstApplication D A} → Registered s → IsReady s
  unfolding new_udp_burst_application
  Registered-IsReady (created node_id) = record { ascending = tt; all_new = tt; at_first = refl }
  Registered-IsReady (outgoing info target enable t r e) =
      (register_outgoing_burst-IsReady _ info target enable (Registered-IsReady r)).holds t e
  Registered-IsReady (incoming info enable t r e) =
      (register_incoming_burst-IsReady _ info enable (Registered-IsReady r)).holds t e
