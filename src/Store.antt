-- ===== src/Store.antt =====
-- The relational store, backend/app/repositories/postgres_store.py: tables, actions, operations.
pub mod Table
pub mod Exec
pub mod Audit
pub mod DataSources
pub mod Dashboards
pub mod Reports
pub mod Snapshots
pub mod Templates
