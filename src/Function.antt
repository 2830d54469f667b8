-- ===== src/Function.antt =====
-- function-httptask: the composition function, one module for each group of fn.go's functions.
pub mod Heap
pub mod Types
pub mod Request
pub mod Observed
pub mod Loop
pub mod Report
pub mod Run
pub mod Cli
pub mod Reading
pub mod Sharing
pub mod Marshal
pub mod Ordered
pub mod Acyclic
pub mod Marshalled
pub mod Outcome
pub mod Statuses
pub mod Shapes
pub mod Positions
pub mod Gating
pub mod Requests
pub mod Phases
pub mod Results
pub mod Answers
pub mod Notify
