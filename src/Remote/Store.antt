-- ===== src/Remote/Store.antt =====
-- The tables of the remote control plane, src/remote/store.ts. A table is the list of its rows in
-- the order of insertion, with the unique columns of the schema checked on insertion. A time is a
-- number of milliseconds, whose ISO text the source stores.
pub mod Types
pub mod Redeem
pub mod Vouchers
pub mod Redeemed
pub mod Spent
pub mod Rows
pub mod Tables
pub mod Records
