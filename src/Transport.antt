-- ===== src/Transport.antt =====
-- hiway/src/transport: operation slots, records, the HWY1 protocol and its frames.
pub mod Operation
pub mod Records
pub mod Contract
pub mod Accountability
pub mod Protocol
pub mod Frame
pub mod Reservation
