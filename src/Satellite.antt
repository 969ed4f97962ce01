-- ===== src/Satellite.antt =====
-- The module simulator/contrib/satellite-network: network devices of satellites and ground
-- stations, and the routing between them. What its two net devices share stands here.
pub mod Server
pub mod Headers
mod DropTail
mod Tests
pub mod Gsl
pub mod Laser
pub mod Forward
use hypatia_multicast.Base.{
  ℕ, ◌≡◌, Bool, true, false, List, [], ◌∷◌, ◌++◌, Option, some, none, Result, ok, err, ◌>>=◌,
  if◌then◌else◌, ◌==◌, assertion, Yields, yields,
}

-- `TxMachineState` of both devices.
pub data TxMachineState : Type 0 where
  ready busy : TxMachineState

abbrev pub is_ready : TxMachineState → Bool
is_ready ready = true
is_ready busy = false

-- ns-3's packets, with the point-to-point header that a device adds and removes.
pub record Packets : Type 1 where
  pub Packet : Type 0
  pub get_size : Packet → ℕ
  pub add_ppp_header : ℕ → Packet → Packet
  pub remove_ppp_header : Packet → ℕ × Packet

-- ns-3's queue of packets. `contents` are the packets in the queue, the oldest one first.
pub record Queues (P : Type 0) : Type 1 where
  pub Queue : Type 0
  pub contents : Queue → List P
  pub enqueue : P → Queue → Option Queue
  pub dequeue : Queue → Option (P × Queue)

-- A queue is first in, first out, and may refuse a packet.
pub record IsFifo {P : Type 0} (qs : Queues P) : Type 0 where
  pub enqueue-contents :
      (p : P) (q r : qs.Queue) → qs.enqueue p q ≡ some r → qs.contents r ≡ qs.contents q ++ p ∷ []
  pub dequeue-none : (q : qs.Queue) → qs.dequeue q ≡ none → qs.contents q ≡ []
  pub dequeue-some :
      (p : P) (q r : qs.Queue) → qs.dequeue q ≡ some (p, r) → qs.contents q ≡ p ∷ qs.contents r

-- A packet that the device has handed to its channel: when, for which address and how long sending
-- takes, and the arrival that the channel has scheduled: at which device and when.
pub record Transmission (P : Type 0) (D : Type 0) : Type 0 where
  pub start_ns : ℕ
  pub packet : P
  pub dest : ℕ
  pub tx_time_ns : ℕ
  pub device : D
  pub arrival_ns : ℕ

-- The events of the device that its trace sources report.
pub data Trace (P : Type 0) : Type 0 where
  mac_tx mac_tx_drop mac_rx mac_promisc_rx phy_tx_begin phy_tx_end phy_tx_drop phy_rx_end
        phy_rx_drop sniffer promisc_sniffer :
      P → Trace P

-- PPP protocol numbers of IPv4 and IPv6, and their Ethernet types; another one fails an assertion.
unfoldable pub ppp_to_ether : ℕ → Result ℕ
ppp_to_ether proto =
    if proto == 0x0021 then ok 0x0800 else if proto == 0x0057 then ok 0x86DD else err assertion

unfoldable pub ether_to_ppp : ℕ → Result ℕ
ether_to_ppp proto =
    if proto == 0x0800 then ok 0x0021 else if proto == 0x86DD then ok 0x0057 else err assertion

-- `AddHeader` and `ProcessHeader` of both devices.
unfoldable pub add_header : (pk : Packets) → pk.Packet → ℕ → Result pk.Packet
unfolding ether_to_ppp
add_header pk p protocol_number = do
  proto ← ether_to_ppp protocol_number
  ok (pk.add_ppp_header proto p)

pub add_header-ok :
    (pk : Packets) (p : pk.Packet) (protocol_number ppp : ℕ)
    → ether_to_ppp protocol_number ≡ ok ppp
    → Yields (λ q. Unit {0}) (add_header pk p protocol_number)
unfolding add_header
add_header-ok pk p protocol_number ppp e = rw e (yields _ tt)

-- The packet without its header, and the protocol.
unfoldable pub process_header : (pk : Packets) → pk.Packet → Result (pk.Packet × ℕ)
unfolding ppp_to_ether
process_header pk p = do
  let removed = pk.remove_ppp_header p
  protocol ← ppp_to_ether removed.0
  ok (removed.1, protocol)

-- std::queue's `front` and `pop`.
abbrev pub front : {A : Type 0} → List A → Option A
front [] = none
front (a ∷ rest) = some a

abbrev pub pop : {A : Type 0} → List A → List A
pop [] = []
pop (a ∷ rest) = rest
