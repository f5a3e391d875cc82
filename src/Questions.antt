-- ===== src/Questions.antt =====
-- How answers are chosen: the condition rules, strict ratios, the guard of zero weights and the
-- scales that options stand for.
pub mod Rules
pub mod Consistency
pub mod Weights
pub mod Ratio
pub mod Guard
pub mod Ordinal
