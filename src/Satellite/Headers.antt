-- ===== src/Satellite/Headers.antt =====
-- The point-to-point header that gsl-net-device.cc and point-to-point-laser-net-device.cc add to a
-- packet, and its removal at the other end.
use hypatia_multicast.Base.{ℕ, ◌≡◌, ◌⊎◌, inl, inr, refl, ok, ◌>>=◌}
use hypatia_multicast.Satellite.{Packets, add_header, process_header, ether_to_ppp, ppp_to_ether}

-- The device that receives an IPv4 or IPv6 packet has the packet without the header, and its
-- protocol, if ns-3 removes the header that it added.
pub process_header-add_header :
    (pk : Packets)
    → ((ppp : ℕ) (p : pk.Packet) → pk.remove_ppp_header (pk.add_ppp_header ppp p) ≡ (ppp, p))
    → (p : pk.Packet) (protocol_number : ℕ)
    → (protocol_number ≡ 0x0800) ⊎ (protocol_number ≡ 0x86DD)
    → (add_header pk p protocol_number >>= process_header pk) ≡ ok (p, protocol_number)
unfolding add_header process_header ether_to_ppp ppp_to_ether
process_header-add_header pk removes p protocol_number (inl e) = rw (e, removes 0x0021 p) refl
process_header-add_header pk removes p protocol_number (inr e) = rw (e, removes 0x0057 p) refl
