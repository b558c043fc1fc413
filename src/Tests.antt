-- ===== src/Tests.antt =====
-- Concrete images, and each theorem of the header's list at one of them.
pub mod Samples
pub mod Reads
pub mod Frees
pub mod Groups
pub mod Mount
pub mod Loads
pub mod Texts
pub mod Dumps
pub mod Files
pub mod Shells
pub mod Session
pub mod Starts
pub mod Enter
