-- ===== src/NetworkPolicy/Run/Laws.antt =====
-- When a run has nothing to do, and what it leaves for the next one.
