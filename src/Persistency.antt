-- ===== src/Persistency.antt =====
-- RRegistry/include/RRegistry/PersistencyPolicy.hpp: the interface of the policies that the registry
-- holds and the adapters push to.
pub mod Database
pub mod Statements
use rbase.Base.{ℕ, String}
use rbase.Entries.{EntryType}
use rbase.Value.{Value}
use rbase.SubscriptionMap.{SubscriptionMap}

-- A policy with its state. A push may read the registry's values. The methods are taken to return: the
-- push of `DBPersistencyPolicy` does, for every entry in bounds but the string.
pub record PersistencyPolicy : Type 1 where
  pub State : Type 0
  pub push : SubscriptionMap Value → ℕ → EntryType → ℕ → State → State
  pub enable : String → State → State
  pub disable : State → State

-- The class `PersistencyPolicy` itself, whose methods do nothing.
abbrev pub no_persistency : PersistencyPolicy
no_persistency = record {
  State = Unit {0};
  push = λ values client type property s. s;
  enable = λ file s. s;
  disable = λ s. s;
}
