-- ===== src/Schema.antt =====
-- The tables of the billing database (billing/models.py, subscribers/models.py, audit/models.py):
-- a record for each row, with the columns that the services read or write, and the database.
-- Keys are numbers from one supply that never repeats, as UUIDs; times are microseconds.
pub mod Choices
pub mod Json
pub mod Rows
pub mod Database
