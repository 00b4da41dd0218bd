-- ===== src/Detail.antt =====
-- RRegistry/include/RRegistry/Detail.hpp: the tables, the names and the continuous numbers.
pub mod Entry
pub mod Tables
pub mod Names
pub mod Continuous
pub mod Defaults
pub mod Types
mod Examples
