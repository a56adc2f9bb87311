-- ===== src/Database.antt =====
-- The database as the repositories see it: the tables, the session that
-- src/admin_backend/db/session.py opens, its row-level security (migrations/versions/21e2ad16303a*
-- and the policies of its later tables), and statements as state passing with exceptions.
--
-- PostgreSQL itself is read by its documentation: a query under row-level security sees the rows
-- that its policy admits, an `ltree` is a list of labels, and an exception undoes the transaction.
pub mod Tables
pub mod Session
pub mod Txn
mod Tests
