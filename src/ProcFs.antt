-- ===== src/ProcFs.antt =====
-- src/kesrv/processmgr/procfs.cxx: what the server reads of /proc. The contents of files are
-- arguments; so are the clock ticks per second. Exceptions of the standard library for want of memory
-- are left out.
pub mod Usage
pub mod Stat
pub mod Line
pub mod Files
