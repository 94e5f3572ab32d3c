-- ===== src/Process.antt =====
-- Processes: the list of control blocks and the scheduler.
pub mod Schedule
pub mod Rounds
pub mod Next
pub mod Create
pub mod Append
pub mod Frame
pub mod CopyCode
pub mod NewStack
