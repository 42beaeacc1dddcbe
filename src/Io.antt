-- ===== src/Io.antt =====
-- pkg/io: the binary reader and writer of every wire and storage format.
pub mod Reader
pub mod Writer
pub mod RoundTrip
pub mod Errors
pub mod Size
mod Runs
