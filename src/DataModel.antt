-- ===== src/DataModel.antt =====
-- data_model.c: access to the XPON data model.
pub mod Reads
pub mod Args
pub mod Transactions
pub mod Change
pub mod Add
pub mod Remove
pub mod Reset
pub mod Local
pub mod Asked
pub mod Existence
