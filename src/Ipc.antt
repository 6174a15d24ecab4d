-- ===== src/Ipc.antt =====
-- ipc: the parts of the remote control that keep state.
pub mod Jobs
pub mod Broker
