-- ===== src/Persistency/Database/Pushing.antt =====
-- What a push, or the start of a stop, leaves when it does not fault.
use rbase.Base.{ℕ, ◌≡◌, ◌≢◌, refl, ◌⊎◌, inl, inr, Bool, true, false, some, [], ◌∷◌, if◌then◌else◌}
use rbase.Base.Outcome.{Outcome, ok, fault, system_error, ◌>>=◌}
use rbase.Entries.{EntryType, string, type_num}
use rbase.Value.{Value}
use rbase.SubscriptionMap
use rbase.SubscriptionMap.{SubscriptionMap}
use rbase.Persistency.Database.{
  Record, Database, new_record, enqueue, push, begin_stop, notify, joinable,
}
use rbase.Persistency.Database.Threads.{accepted}

-- A record is made of any entry but a string.
pub new_record-made :
    (values : SubscriptionMap Value) (client : ℕ) (t : EntryType) (property : ℕ) (s : Database)
    {v : Value}
    → t ≢ string
    → SubscriptionMap.get values (type_num t) property ≡ some v
    → new_record values client t property s
      ≡ ok (record {
        time_since_start = s.now;
        client_id = client;
        registry_type = t;
        property = property;
        value = v;
      })
unfolding new_record
new_record-made values client string property s ns e = absurd (ns refl)
new_record-made values client _ property s ns e = rw e refl

-- A push of any entry in bounds but a string returns.
pub push_returns :
    (values : SubscriptionMap Value) (client : ℕ) (t : EntryType) (property : ℕ) (s : Database)
    {v : Value}
    → t ≢ string
    → SubscriptionMap.get values (type_num t) property ≡ some v
    → (s' : Database) × (push values client t property s ≡ ok s')
unfolding push
push_returns values client t property s ns e =
    by_stop s.stop _ (new_record-made values client t property s ns e)
  where
    by_stop :
        (b : Bool) {o : Outcome Record} (r : Record)
        → o ≡ ok r
        → (s' : Database) × ((if b then ok s else (o >>= λ x. ok (enqueue x s))) ≡ ok s')
    by_stop true r f = (s, refl)
    by_stop false r f = (enqueue r s, rw f refl)

-- What a push did: nothing, or one record was queued.
abbrev pub Pushed : SubscriptionMap Value → ℕ → EntryType → ℕ → Database → Database → Type 0
Pushed values client t property s s' =
    ((accepted values client t property s ≡ []) × (s ≡ s'))
    ⊎ ((r : Record) × (accepted values client t property s ≡ r ∷ []) × (enqueue r s ≡ s'))

by_tests :
    (b : Bool) (o : Outcome Record) (f : Record → Database) (s s' : Database)
    → (if b then ok s else (o >>= λ r. ok (f r))) ≡ ok s'
    → (((if b then [] else elim o [ ok r ↦ r ∷ [] | fault e ↦ [] ]) ≡ []) × (s ≡ s'))
      ⊎ ((r : Record) × ((if b then [] else elim o [ ok r ↦ r ∷ [] | fault e ↦ [] ]) ≡ r ∷ [])
          × (f r ≡ s'))
by_tests true o f s s' e = inl (refl, cc)
by_tests false (ok r) f s s' e = inr (r, refl, cc)
by_tests false (fault x) f s s' e = cc

pub push-Pushed :
    (values : SubscriptionMap Value) (client : ℕ) (t : EntryType) (property : ℕ) (s s' : Database)
    → push values client t property s ≡ ok s'
    → Pushed values client t property s s'
unfolding push
push-Pushed values client t property s s' e =
    by_tests s.stop (new_record values client t property s) (λ r. enqueue r s) s s' e

-- What `disable` leaves, up to the join.
abbrev pub stopping : Database → Database
stopping s = record (notify (record s { stop = true })) { joining = true }

pub begin_stop-stopping :
    (s s' : Database) → begin_stop s ≡ ok s' → (joinable s.worker ≡ true) × (stopping s ≡ s')
unfolding begin_stop
begin_stop-stopping s s' e = by_test (joinable s.worker) e
  where
    by_test :
        (b : Bool)
        → (if b then ok (stopping s) else fault system_error) ≡ ok s'
        → (b ≡ true) × (stopping s ≡ s')
    by_test true f = (refl, cc)
    by_test false f = cc
