-- ===== src/Modules.antt =====
-- Module access of src/admin_backend/repositories/modules_access.py: the rows, enabling and
-- disabling, what each does, and the tables that they lead to.
pub mod Rows
pub mod Access
pub mod Outcome
pub mod Invariant
pub mod Reachable
pub mod Shows
pub mod Effect
mod Tests
