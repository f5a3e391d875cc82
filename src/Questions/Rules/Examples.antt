-- ===== src/Questions/Rules/Examples.antt =====
-- x
