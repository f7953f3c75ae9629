-- ===== src/System.antt =====
-- The parts of the agent together: a beat of `phoneHome` (agent/main.go) and the next round of `run`
-- (agent/decoders.go), and a start of the agent behind another one.
pub mod Remote
pub mod Durable
mod Examples
