-- ===== src/Pcb.antt =====
-- kaya/phase1/pcb.c: the process queues, the process tree and the table of process control blocks.
pub mod Queue
pub mod Tree
pub mod Table
mod Tests
