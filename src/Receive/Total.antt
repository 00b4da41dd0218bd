-- ===== src/Receive/Total.antt =====
-- Every message to a connection is handled, and the world serves on.
use rbase.Base.{ℕ, ◌≡◌, ◌≢◌, ap, ◌∙◌, some, inl, inr, Option-cases, le_or_lt}
use rbase.Base.Outcome.{ok}
use rbase.Entries.{string, type_of_num, entry_count}
use rbase.RCore.{RCore, request}
use rbase.Persistency.{PersistencyPolicy}
use rbase.Registry.{World}
use rbase.Receive.{Message, receive}
use rbase.Receive.Ready.{receive-dispatch}
use rbase.Receive.Paths.{receive_unknown}
use rbase.Receive.Serving.{IsServing, Exists, Serves}
use rbase.Receive.Handled.{handled}

module _ (core : RCore) (policies : PersistencyPolicy) where
  open core use {Buffer}
  open policies use {State}

  -- A connection handles every message but a request for a string: it never faults, whatever the
  -- message holds; afterwards every connection is still there and as able to handle messages.
  pub receive-Serves :
      (r : ℕ) (m : Message) (w : World Buffer State)
      → IsServing core w
      → Exists core r w
      → (m.message_type ≡ request → type_of_num m.type ≢ some string)
      → (w' : World Buffer State) × (receive core policies r m w ≡ ok w') × Serves core w w'
  receive-Serves r m w s (a, found) ns = elim (Option-cases (type_of_num m.type)) [
    | inl unknown ↦ (w, receive_unknown core policies r m w (inl unknown), (s, λ q e. e))
    | inr (t, known) ↦ elim (le_or_lt (entry_count t) m.property) [
      | inl beyond ↦
          (w, receive_unknown core policies r m w (inr (t, known, beyond)), (s, λ q e. e))
      | inr within ↦
          let (w', e, h) =
            handled core policies r t m w a s found known within m.message_type
              (λ k same. ns k (known ∙ ap some same)) in
          (w', receive-dispatch core policies r t m w a found known within ∙ e, h)
    ]
  ]
