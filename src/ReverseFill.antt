-- ===== src/ReverseFill.antt =====
-- software/core/reverse_fill: how the cells of a spreadsheet become answers.
pub mod Parser
pub mod Sources
