-- ===== src/Trace/Wrappers/Program/Whole.antt =====
-- A whole program under the memory collector: core/collectors/mem, wrappers.c and collector.c.
