-- ===== src/Examples.antt =====
-- Concrete workflows, tasks and answers, and the theorems of the other modules at work on them.
pub mod Data
pub mod FunctionRuns
pub mod HeapRuns
pub mod ControllerRuns
pub mod WorkflowRuns
pub mod ResultRuns
pub mod SquareRuns
pub mod ServerRuns
pub mod Index
pub mod WatcherRuns
pub mod ManagerRuns
pub mod StoreRuns
pub mod RepeatedRuns
