-- ===== src/Detail/Tables.antt =====
-- RRegistry/include/RRegistry/Detail.hpp: the entry tables, by type.
mod Signed
mod Unsigned
mod Others
pub use Signed.*
pub use Unsigned.*
pub use Others.*
