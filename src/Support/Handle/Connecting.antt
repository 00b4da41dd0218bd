-- ===== src/Support/Handle/Connecting.antt =====
-- What the handle and its adapter are after `rsupport_handle_connect`.
use rbase.Base.{ℕ, ◌≡◌, refl, ap, ◌∙◌, ◌⊎◌, Bool, true, false, Option, none, some, arith}
use rbase.Base.Int.{ℤ, pos}
use rbase.Base.Outcome.{ok}
use rbase.Base.Assoc.{find, find-replace_self}
use rbase.Entries.{uint8, type_num}
use rbase.SubscriptionMap.Shape.{HasShape}
use rbase.Reliability.{default_reliability, reliability_contains, acknowledged}
use rbase.RCore.{RCore, Event, event_ok, subscribe}
use rbase.Adapter
use rbase.Adapter.{Adapter}
use rbase.Adapter.Flags.{is_subscribed_to-subscribe_or}
use rbase.Registry.{World}
use rbase.Receive.{with_adapter}
use rbase.Receive.Ready.{adapter_at-found}
use rbase.Support.{
  Status, status_ok, is_error, auto_frequency, could_not_open_socket, connection_failed,
}
use rbase.Support.Client
use rbase.Support.Client.{Client, transmit}
use rbase.Support.Handle.{
  Handle, get_option, subscribe_frequency, subscribe_if, after_connect, connect_client,
  handle_connect,
}

module _ (core : RCore) where
  open core use {Buffer}

  -- What the transmit buffer holds after the message SUBSCRIBE, on the buffer of before.
  abbrev pub SubscribeSent : Adapter Buffer → Adapter Buffer → Type 0
  SubscribeSent a a' =
      (event : Event) × (core.send_ctrl a.buffer (type_num uint8) 12 subscribe
          (reliability_contains default_reliability acknowledged)
        ≡ (a'.buffer, event))

module _ (core : RCore) {S : Type 0} where
  open core use {Buffer}

  frequency_subscribed :
      (r : ℕ) (w : World Buffer S) (a : Adapter Buffer)
      → find r w.adapters ≡ some a
      → HasShape a.subscriptions_remote
      → (w' : World Buffer S) × (a' : Adapter Buffer) × (subscribe_frequency core r w ≡ ok w')
        × (w'.values ≡ w.values)
        × (find r w'.adapters ≡ some a')
        × (Adapter.is_subscribed_to uint8 12 a' ≡ ok true)
        × SubscribeSent core a a'
  unfolding subscribe_frequency with_adapter
  frequency_subscribed r w a found shape =
      let (event, a', e, sent, self, rest) =
        is_subscribed_to-subscribe_or core true uint8 12 default_reliability a uint8 13 shape
          (omega arith) (λ _ f. omega (arith, f)) in
      (
        with_adapter r a' w,
        a',
        rw (adapter_at-found r w found) (rw e refl),
        refl,
        find-replace_self r a' w.adapters found,
        self,
        (event, sent),
      )

  -- A connection that succeeds, with the option AutoFrequency, of a handle whose adapter exists, with a
  -- flag for each entry: the status is ok, the socket is kept, and no value changes; the adapter has sent
  -- the one message SUBSCRIBE for `REGULATION_KERNEL_FREQUENCY` through its transmit buffer, and counts as
  -- subscribed to it.
  pub connect_subscribes :
      (fd : ℤ) (h : Handle Buffer S) (r : ℕ) (c : Client) (a : Adapter Buffer)
      → h.client ≡ some (r, c)
      → find r h.world.adapters ≡ some a
      → HasShape a.subscriptions_remote
      → get_option auto_frequency (some h) ≡ true
      → (h' : Handle Buffer S) × (a' : Adapter Buffer) × (handle_connect core (some fd) true h
          ≡ ok (status_ok, h'))
        × (h'.client ≡ some (r, record c { fd = fd }))
        × (h'.world.values ≡ h.world.values)
        × (find r h'.world.adapters ≡ some a')
        × (Adapter.is_subscribed_to uint8 12 a' ≡ ok true)
        × SubscribeSent core a a'
  unfolding handle_connect connect_client after_connect subscribe_if Client.connect get_option
  connect_subscribes fd h r c a e found shape auto =
      let (w', a', done, values, found', self, sent) =
        frequency_subscribed r h.world a found shape in
      let h' = record h { client = some (r, record c { fd = fd }) } in
      (
        record h' { world = w' },
        a',
        ap (λ o. connect_client core o (some fd) true h) e
            ∙ ap (λ b. subscribe_if core b r h') auto
            ∙ rw done refl,
        refl,
        values,
        found',
        self,
        sent,
      )

  -- A connection that fails: the status is an error, the registry and the adapters are as before, and
  -- what the adapter sends afterwards is reported as sent and not written.
  pub failed_connect_silent :
      (socket : Option ℤ) (connected b : Bool) (h : Handle Buffer S) (r : ℕ) (c : Client)
      → h.client ≡ some (r, c)
      → (socket ≡ none) ⊎ (connected ≡ false)
      → (status : Status) × (h' : Handle Buffer S) × (c' : Client) × (handle_connect core socket
            connected h
          ≡ ok (status, h'))
        × (is_error status ≡ true)
        × (h'.world ≡ h.world)
        × (h'.client ≡ some (r, c'))
        × (transmit b c' ≡ (event_ok, false))
  unfolding handle_connect connect_client after_connect Client.connect is_error transmit
  failed_connect_silent none connected b h r c e f =
      let c' = record c { fd = pos 0 } in
      (
        could_not_open_socket,
        record h { client = some (r, c') },
        c',
        ap (λ o. connect_client core o none connected h) e,
        refl,
        refl,
        refl,
        refl,
      )
  failed_connect_silent (some fd) false b h r c e f =
      let c' = record c { fd = pos 0 } in
      (
        connection_failed,
        record h { client = some (r, c') },
        c',
        ap (λ o. connect_client core o (some fd) false h) e,
        refl,
        refl,
        refl,
        refl,
      )
  failed_connect_silent (some fd) true b h r c e f = ground arith
