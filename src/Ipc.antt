-- ===== src/Ipc.antt =====
-- The pairs of processes of ipcCode: shmem, mqueue, flock, pipes/pipeUN.c and sigs.
pub mod SharedMemory
pub mod MessageQueue
pub mod Copy
pub mod Signals
