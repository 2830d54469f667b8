-- ===== src/Controller.antt =====
-- internal/controller: the reconcilers.
pub mod Platform
pub mod Index
pub mod Merge
pub mod HttpTask
pub mod Workflow
pub mod Operands
pub mod Transfer
pub mod Square
pub mod Setup
