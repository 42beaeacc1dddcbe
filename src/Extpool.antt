-- ===== src/Extpool.antt =====
-- pkg/network/extpool/pool.go: the pool of extensible payloads, a queue for each sender.
pub mod Pool
pub mod Sound
pub mod AddLaw
pub mod Live
pub mod SweepLaw
mod Runs
