-- ===== src/Server/Db.antt =====
-- crates/devsite-server/src/db.rs: the tables of the control plane as lists of rows. A new resource
-- stands last and any other new row first; no operation here depends on that order. The statements
-- that the source writes in SQL are read as operations on the lists: a WHERE clause is a filter, OR
-- IGNORE and a primary key are a test for the row, REFERENCES … ON DELETE CASCADE is a filter in
-- each referring table. A statement that violates a constraint fails: the operation returns `none`,
-- or `false` where an earlier statement of it stands outside a transaction and keeps its effect. A
-- token's hash is the number that its 32 bytes spell; times are below 2^63, where the cast to `i64`
-- changes nothing.
pub mod Rows
pub mod Shares
pub mod Resources
pub mod Machines
pub mod Accounts
pub mod Tickets
pub mod Listings
