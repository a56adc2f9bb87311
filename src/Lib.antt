-- ===== src/Lib.antt =====
-- The admin backend of cortex-cm (src/admin_backend, Python).
--
-- The program is a multi-tenant service. A request passes the auth middleware, which verifies its
-- token and makes an identity of the claims; a session is opened whose settings row-level security
-- reads; a gate looks up the anchor of the target and asks whether the identity holds a permission
-- there; a handler then calls a repository, whose statements run in the session's transaction.
--
-- How the parts of the program stand in these files:
--   Errors, Errors/Payload     src/admin_backend/errors.py: the error classes, build_error_payload
--   Result                     Python's exceptions
--   Models/*                   src/admin_backend/models: one record for each table's rows
--   Models/Checks              the CHECKs of stores and nodes on the columns of their status, from
--                              migrations/versions/ad8afd429581_initial_schema.py
--   Auth/Email, Auth/Context   src/admin_backend/auth/context.py: AuthContext and its validators
--   Auth/Claims                src/admin_backend/auth/claims.py: claims_to_auth_context
--   Auth/Verify                src/admin_backend/auth/stub.py, auth0.py: verify
--   Auth/Middleware            src/admin_backend/middleware/auth.py: AuthMiddleware.dispatch
--   Database/*                 src/admin_backend/db/session.py and the policies of
--                              migrations/versions/21e2ad16303a*: tables as lists of rows, the
--                              session, a transaction as state passing with exceptions
--   OrgTree/Ltree              paths, and _is_descendant of src/admin_backend/repositories/org_nodes.py
--   OrgTree/Order, Rows, Nodes src/admin_backend/repositories/org_nodes.py: the order of node types,
--                              statements on rows, add_node and set_status
--   OrgTree/Paths, Codes       the paths and the codes that a subtree's rows carry
--   OrgTree/Move, Edit, Editing
--                              edit_node: a rename, a new code, a new parent, and the rewriting of
--                              the paths below the node
--   OrgTree/Tree, Ancestry     the shape of the tree, chains of parents
--   OrgTree/Forest, Moved, Reshape, Replacement, Grow
--                              the invariant that every repository write keeps, and the trees that
--                              add_node and edit_node reach
--   Stores/Transition          src/admin_backend/repositories/stores.py: transition, get_by_id
--   Stores/Lifecycle, Cascade, Invariant, Outcome
--                              the matrix, the paired nodes, and both tables under a transition
--   Stores/Create, Paired, Growth, Codes
--                              create: the tenant's own node, the store and its node, the failures
--   Tenants/*                  src/admin_backend/repositories/tenants.py: transition,
--                              get_by_id_with_aggregates, slug_for_tenant_root
--   Roles/Sets, Holders, Detail, Update
--                              src/admin_backend/repositories/roles.py: what is read of a role, the
--                              holders of the bootstrap permission, update
--   Roles/Editing, Counting, Bootstrap, Refusals, LastCheck, LastHolder, Tripwire,
--   Roles/Grants, Invariant
--                              what an update has checked and written, the two layers of its check on
--                              holders, the permissions afterwards, what every update keeps
--   Users/Pairs, Detail, Validate, Diff, Report, Create, Update, Transition, Accept
--                              src/admin_backend/repositories/tenant_users.py: get_by_id, the checks,
--                              the reconciliation of roles, the audit rows, and the four writes
--   Users/Revoked, Inserted, Reconciled, Tenancy
--                              the assignments behind a reconciliation
--   Users/Checks, Editing, Creation, Lifecycle, Acceptance, Accepted
--                              what each write has checked and written, a second acceptance
--   Users/Effect, Emails, Invariant, Reachable
--                              what the permission check sees of an update, the table of users under
--                              every sequence of writes
--   Users/Conflict, Alone      the insertions of an update that runs alone
--   Audit/*                    src/admin_backend/audit/emit.py: labels, details, emit_audit_event,
--                              the tables that an emission leaves alone
--   Audit/Cursor, Activities, Listing, Keyset, Paging, Audience
--                              src/admin_backend/repositories/audit_logs.py: the cursors, the
--                              statements and the pages of the listing, their order, a client that
--                              follows the cursors; get_audit_activity of
--                              src/admin_backend/routers/v1/audit.py
--   Modules/Rows, Access       src/admin_backend/repositories/modules_access.py: enable, disable
--   Modules/Outcome, Invariant, Reachable, Shows, Effect
--                              their results, the rows they keep sound, what the gate then sees
--   Permission/Scope           src/admin_backend/auth/permissions.py: the scope cascade
--   Permission/Join, Resolve   the joins and conditions of has_permission
--   Permission/Isolation, Cascade
--                              what follows for tenants, scopes and paths
--   Permission/Grants          get_permissions_for_user
--   Permission/Anchors         src/admin_backend/auth/anchor_deps.py
--   Permission/Gate            require
--   Base, Samples, */Tests     shared helpers, a sample tenant, runs
--
-- The repositories' methods are transactions, functions from a database to a result and a database.
-- Ids that a table's default gives are numbered by `next_id`; `now` is the time of the transaction;
-- the constraints of a table that a write may run into are tests before the write.
--
-- A function keeps its name; the session is its first argument where row-level security applies,
-- and the database its second. SQL is read clause by clause: a WHERE clause is a Boolean function of
-- a row, a JOIN a traversal of the joined table, EXISTS and LIMIT 1 a search. A policy filters each
-- table that has one. A transaction that fails leaves the tables as they were.
--
-- Python's sets are lists without repetition, whose order is that in which a loop runs through them.
-- Where a check of the code sees every row that a unique index compares, the index is no test of its
-- own, and it is a theorem that the write keeps it; nor are the checks on the columns that go with the
-- status of a tenant, a user or a module row, which their transitions set together.
--
-- The components meet in the tables. The creation and the transitions of stores call the methods of
-- the tree; the repositories emit their audit events in the transaction of the write; what enable and
-- disable write to the module table, and update to the assignments of a user, is what the gate of
-- Permission reads.
--
-- The operations use no fuel: every recursion is on a list or a text. The client that follows the
-- cursors of the audit listing is a loop on fuel; more fuel than there are rows is enough, since every
-- page with a cursor has a row.
--
-- Parameters: the JWT library (a record of its decode and key lookup), the parsing of UUIDs, the
-- integer coercion of the schema library, the database's ORDER BY on names and on permissions, its
-- regular expression on emails, the display names that the lookups table has, the NFKD normalisation of texts, the comparison of
-- decimals with a bound, and whether another transaction inserts the row that enable is about to
-- insert (the race its handler answers). Hypotheses say what the request schemas
-- have checked. The encoders of cursors (base64, JSON, ISO times, UUIDs) are a record, whose hypothesis
-- is that each decoder reads what its encoder wrote; ILIKE is a parameter without one.
--
-- Codes of nodes are ASCII, as the request schemas and the table have it, so that `lower` is the
-- ASCII one.
--
-- Not modelled: HTTP, connections, locks and concurrent transactions (statements of one transaction
-- run without interference, but for the race of enable), the creation and update of tenants, the
-- update of stores, the failure path of the audit trail, the listings but the audit trail's, the
-- schemas, configuration and scripts.
pub mod Base
pub mod Errors
pub mod Result
pub mod Roles
pub mod Models
pub mod Auth
pub mod Database
pub mod OrgTree
pub mod Permission
pub mod Audit
pub mod Tenants
pub mod Users
pub mod Stores
pub mod Modules
pub mod Samples
