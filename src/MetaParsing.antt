-- ===== src/MetaParsing.antt =====
-- src/meta_parsing.rs: meta-transactions.
pub mod Syntax
pub mod ArgTypes
pub mod Methods
pub mod Decoding
pub mod Hashing
pub mod Abi
pub mod Tables
pub mod MetaCall
