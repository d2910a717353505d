-- ===== src/MutexTask.antt =====
-- mutex-task/mutex-task.go: at most one execution for a key at a time; callers that come meanwhile
-- wait for its result. Threads are numbered, and their steps are interleaved in any order.
pub mod System
pub mod Invariant
pub mod Safety
pub mod Endings
pub mod Keys
pub mod Results
