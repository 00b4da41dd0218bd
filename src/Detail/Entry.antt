-- ===== src/Detail/Entry.antt =====
-- RRegistry/include/RRegistry/Detail.hpp: what the tables say of one entry.
use rbase.Base.{String}
use rbase.Value.{Value}

-- `EntryDetail<CLASS>`.
pub record EntryDetail : Type 0 where
  pub name : String
  pub brief : String
  pub detailed : String
  pub def : Value
  pub min : Value
  pub max : Value

-- `EntryDetailLite`, for the strings.
pub record EntryDetailLite : Type 0 where
  pub name : String
  pub brief : String
  pub detailed : String
