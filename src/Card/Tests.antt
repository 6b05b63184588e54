-- ===== src/Card/Tests.antt =====
-- The seven of hearts and the seven of spades.
