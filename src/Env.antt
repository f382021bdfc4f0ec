-- ===== src/Env.antt =====
-- The libraries and the C library behind modbusd: their operations, and what is assumed of them.
mod Defs
pub mod Laws
pub mod Ledger
pub mod Recorder
pub use Defs.*
