-- ===== src/Sql.antt =====
-- What the stores' SQL statements mean: a table is the list of its rows in primary-key order, an
-- `UPDATE ... WHERE id = ? AND cond` changes at most the one row with that key, and a transaction
-- either returns a value with the new database or an error, after which `Rollback` has left the
-- database as it was.
pub mod Result
pub mod Table
pub mod Moves
pub mod Read
