-- ===== src/Protocol.antt =====
-- How the parts meet: what the simulated link of linksim/link_sim.c does to a packet of
-- packet_implem.c shows at the receiver of sel_repeat_read.c, and what the receiver sends back means
-- what the sender of sel_repeat_write.c takes it for.
pub mod Damage
pub mod Answer
pub mod Duplicate
pub mod System
mod Tests
