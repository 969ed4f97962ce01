-- ===== src/Routing.antt =====
-- The routing of the simulator: equal-cost next hops, multicast trees, and the arbiters that apply
-- them to packets.
pub mod Ecmp
pub mod Arbiter
pub mod Multicast
pub mod Ipv4
