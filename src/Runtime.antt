-- ===== src/Runtime.antt =====
-- runtime.go: service Containers with dependencies, hooks and tasks, and the Runtime that initializes,
-- starts and stops them. The comment of each child says which part it has.
pub mod Types
pub mod Store
pub mod Calls
pub mod Create
pub mod Tasks
pub mod Watch
pub mod Access
pub mod Turns
pub mod Lifecycle
pub mod Run
pub mod Contexts
mod Tests
pub mod Keeps
pub mod Frame
pub mod Stages
pub mod Phases
pub mod Shutdown
pub mod Executed
pub mod Settled
pub mod Finished
pub mod Deps
pub mod Invariant
pub mod Reports
pub mod Hooks
pub mod Quiet
