-- ===== src/Task.antt =====
-- software/core/task: the state that the sessions of one run share.
pub mod Defs
pub mod Samples
pub mod ReverseFill
pub mod Joint
pub mod Distribution
pub mod Progress
pub mod Proxy
pub mod Terminal
pub mod Prefill
