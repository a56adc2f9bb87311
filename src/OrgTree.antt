-- ===== src/OrgTree.antt =====
-- The organisation tree: src/admin_backend/repositories/org_nodes.py.
pub mod Ltree
pub mod Order
pub mod Rows
pub mod Paths
pub mod Codes
pub mod Nodes
pub mod Edit
pub mod Forest
pub mod Move
pub mod Moved
pub mod Editing
pub mod Reshape
pub mod Replacement
pub mod Grow
pub mod Tree
pub mod Ancestry
mod Tests
