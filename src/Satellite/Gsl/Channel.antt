-- ===== src/Satellite/Gsl/Channel.antt =====
-- GSLChannel: simulator/contrib/satellite-network/model/gsl-channel.cc. An address is its 48 bits
-- as a number. The delay between two devices, which the source computes from their distance in
-- doubles, and whether they are simulated by one process, are arguments.
use hypatia_multicast.Base.{
  ℕ, ◌+◌, ◌≡◌, refl, ap, ◌∙◌, Bool, true, false, List, [], ◌∷◌, ◌++◌, Option, some, none, Result,
  ok, err, ◌>>=◌, ◌>>◌, throw_if, or_throw, not, assertion, out_of_range, length, find, put,
  find-put, get_elem?, if◌then◌else◌, ◌==◌, ==_iff,
}

pub record GslChannel (D : Type 0) : Type 0 where
  pub link : List (ℕ × D)
  pub net_devices : List D

abbrev pub new_gsl_channel : (D : Type 0) → GslChannel D
new_gsl_channel D = record { link = []; net_devices = [] }

-- `Attach`, with the device and its address.
unfoldable pub attach_device : {D : Type 0} → GslChannel D → ℕ → D → GslChannel D
unfolding put
attach_device c address device = record {
  link = put address device c.link;
  net_devices = c.net_devices ++ device ∷ [];
}

-- `TransmitTo`: the arrival at a device, and the time until then.
unfoldable pub transmit_to : {D : Type 0} → (D → D → ℕ) → D → D → ℕ → Bool → Result (D × ℕ)
transmit_to delay_ns src dst tx_time_ns is_same_system = do
  throw_if (not is_same_system) assertion
  ok (dst, tx_time_ns + delay_ns src dst)

-- `TransmitStart`, which returns true if it returns.
unfoldable pub channel_transmit_start :
    {D : Type 0} → (D → D → ℕ) → (D → ℕ) → GslChannel D → D → ℕ → ℕ → Result (D × ℕ)
unfolding find transmit_to
channel_transmit_start delay_ns system_id c src dst_address tx_time_ns = do
  dst ← or_throw (find dst_address c.link) assertion
  transmit_to delay_ns src dst tx_time_ns (system_id src == system_id dst)

-- What a device calls the channel with: its channel, itself, the delay from one device to another at
-- a time, and the process that simulates a device.
pub record Port (D : Type 0) : Type 0 where
  pub channel : GslChannel D
  pub self : D
  pub delay_ns : ℕ → D → D → ℕ
  pub system_id : D → ℕ

-- A device's call of `TransmitStart`: the arrival that it schedules, and the result, which is true.
unfoldable pub call_channel : {D : Type 0} → Port D → ℕ → ℕ → ℕ → Result ((D × ℕ) × Bool)
unfolding channel_transmit_start
call_channel port now_ns dst_address tx_time_ns = do
  arrival ←
      channel_transmit_start (port.delay_ns now_ns) port.system_id port.channel port.self
        dst_address tx_time_ns
  ok (arrival, true)

unfoldable pub get_n_devices : {D : Type 0} → GslChannel D → ℕ
get_n_devices c = length c.net_devices

unfoldable pub get_device : {D : Type 0} → GslChannel D → ℕ → Result D
get_device c i = or_throw (get_elem? c.net_devices i) out_of_range

-- What the channel has attached, in order.
unfoldable pub attach_devices : {D : Type 0} → GslChannel D → List (ℕ × D) → GslChannel D
unfolding attach_device
attach_devices c [] = c
attach_devices c ((address, device) ∷ rest) = attach_devices (attach_device c address device) rest

-- The last device with an address.
abbrev pub last_with : {D : Type 0} → ℕ → List (ℕ × D) → Option D → Option D
last_with address [] before = before
last_with address ((a, d) ∷ rest) before =
    last_with address rest (if a == address then some d else before)

find-attach_devices :
    {D : Type 0} (c : GslChannel D) (attached : List (ℕ × D)) (address : ℕ)
    → find address (attach_devices c attached).link
      ≡ last_with address attached (find address c.link)
unfolding attach_devices attach_device
find-attach_devices c [] address = refl
find-attach_devices c ((a, d) ∷ rest) address =
    find-attach_devices (attach_device c a d) rest address
    ∙ ap (last_with address rest) (find-put a address d c.link)

-- A transmission on a channel with these devices attached, all simulated by one process, arrives at
-- the last one that was attached with its destination's address, after the time that sending takes
-- and the delay between the two devices; if there is none, the simulation is aborted.
pub channel_transmit_start-attached :
    {D : Type 0} (delay_ns : D → D → ℕ) (system_id : D → ℕ) (attached : List (ℕ × D)) (src : D)
    (dst_address tx_time_ns : ℕ)
    → ((d e : D) → system_id d ≡ system_id e)
    → channel_transmit_start delay_ns system_id
        (attach_devices (new_gsl_channel D) attached)
        src
        dst_address
        tx_time_ns
      ≡ elim (last_with dst_address attached none) [
        | none ↦ err assertion
        | some dst ↦ ok (dst, tx_time_ns + delay_ns src dst)
      ]
unfolding channel_transmit_start transmit_to
channel_transmit_start-attached {D} delay_ns system_id attached src dst_address tx_time_ns one =
    rw (find-attach_devices (new_gsl_channel D) attached dst_address)
      (by_device (last_with dst_address attached none))
  where
    by_device :
        (o : Option D)
        → (or_throw o assertion >>= λ dst.
            transmit_to delay_ns src dst tx_time_ns (system_id src == system_id dst))
          ≡ elim o [ none ↦ err assertion | some dst ↦ ok (dst, tx_time_ns + delay_ns src dst) ]
    by_device none = refl
    by_device (some dst) = rw ((==_iff (system_id src) (system_id dst)).1 (one src dst)) refl

-- A device simulated by the same process is attached with the address.
abbrev pub IsReachable : {D : Type 0} → Port D → ℕ → Type 0
IsReachable {D} port address =
    (dst : D) × (find address port.channel.link ≡ some dst)
    × (port.system_id port.self ≡ port.system_id dst)

-- What a call of the channel does.
pub data Outcome {D : Type 0} (port : Port D) (now_ns address tx_time_ns : ℕ)
    (r : Result ((D × ℕ) × Bool)) : Type 0 where
  reached :
      (dst : D)
      → find address port.channel.link ≡ some dst
      → r ≡ ok ((dst, tx_time_ns + port.delay_ns now_ns port.self dst), true)
      → Outcome port now_ns address tx_time_ns r
  aborted :
      ¬ IsReachable port address → r ≡ err assertion → Outcome port now_ns address tx_time_ns r

-- A call of the channel reaches the device that is attached with the address, or aborts if there is
-- none, or one that another process simulates.
pub call_channel-Outcome :
    {D : Type 0} (port : Port D) (now_ns address tx_time_ns : ℕ)
    → Outcome port now_ns address tx_time_ns (call_channel port now_ns address tx_time_ns)
unfolding call_channel channel_transmit_start transmit_to
call_channel-Outcome {D} port now_ns address tx_time_ns =
    by_device (find address port.channel.link) refl
  where
    by_device :
        (o : Option D)
        → find address port.channel.link ≡ o
        → Outcome port now_ns address tx_time_ns (
            (or_throw o assertion >>= λ dst.
            transmit_to
              (port.delay_ns now_ns)
              port.self
              dst
              tx_time_ns
              (port.system_id port.self == port.system_id dst))
            >>= λ arrival. ok (arrival, true))
    by_device none e = aborted (λ h. let found = h.1 in cc) refl
    by_device (some dst) e = by_system (port.system_id port.self == port.system_id dst) refl
      where
        by_system :
            (b : Bool)
            → (port.system_id port.self == port.system_id dst) ≡ b
            → Outcome port now_ns address tx_time_ns (
                transmit_to (port.delay_ns now_ns) port.self dst tx_time_ns b >>= λ arrival.
                ok (arrival, true))
        by_system true b = reached dst e refl
        by_system false b =
            aborted
              (λ (other, found, same).
                let equal : other ≡ dst = cc in
                let test =
                  (==_iff (port.system_id port.self) (port.system_id dst)).1
                    (same ∙ ap port.system_id equal) in
                cc)
              refl
