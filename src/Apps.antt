-- ===== src/Apps.antt =====
-- The applications of simulator/contrib/basic-sim/model/apps.
pub mod UdpBurst
