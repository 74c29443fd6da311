-- ===== src/NetHelper.antt =====
-- deploy/nova-ve-net.py: the privileged network helper. Its patterns and validators, the check of
-- a pid against the registry and /proc, and its verbs as programs over a trace of effects.
pub mod Patterns
pub mod Checks
pub mod Pids
pub mod Links
pub mod Nat
pub mod Processes
pub mod Verbs
pub mod Hoare
pub mod Policy
pub mod Validators
pub mod Confined
pub mod Bounds
mod Tests
