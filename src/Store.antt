-- ===== src/Store.antt =====
-- app/models/tables.py and app/repositories: the tables and the queries.
pub mod Query
pub mod Tables
pub mod Repos
