-- ===== src/Worker.antt =====
-- `worker` of core/worker.h and core/worker.cpp.
pub mod Pipe
