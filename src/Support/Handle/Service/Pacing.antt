-- ===== src/Support/Handle/Service/Pacing.antt =====
-- RSupport/src/RSupport.cpp: the wait for the console at the end of a frame.
use rbase.Base.{
  ℕ, zero, suc, ◌<◌, ◌≡◌, ◌≢◌, refl, ap, ◌∙◌, true, false, none, some, List, [], ◌∷◌, ◌++◌,
  replicate, if◌then◌else◌,
}
use rbase.Base.Outcome.{ok}
use rbase.Base.Assoc.{find, find-replace_self}
use rbase.Entries.{EntryType, string, type_of_num, entry_count}
use rbase.Value.{Value, value_eq}
use rbase.RCore.{RCore, update}
use rbase.Persistency.{PersistencyPolicy}
use rbase.Adapter
use rbase.Adapter.{Adapter}
use rbase.Registry
use rbase.Registry.{World}
use rbase.Receive.{Message, receive, with_adapter}
use rbase.Receive.Ready.{adapter_at-found}
use rbase.Receive.Applying.{carried, reopened}
use rbase.Receive.Serving.{IsServing, Serves-with_adapter}
use rbase.Receive.Kept.{KeepsAll, update_kept}
use rbase.Support.Handle.Service.{receive_each, read_console, await_update}

module _ (core : RCore) (policies : PersistencyPolicy) (r : ℕ) where
  open core use {Buffer}
  open policies use {State}

  -- The adapter at the start of a round.
  abbrev reset : Adapter Buffer → Adapter Buffer
  reset a = record a { had_update = false }

  module _ (w : World Buffer State) (a : Adapter Buffer) (found : find r w.adapters ≡ some a) where
    reset_found : find r (with_adapter r (reset a) w).adapters ≡ some (reset a)
    unfolding with_adapter
    reset_found = find-replace_self r (reset a) w.adapters found

    read_with :
        (ms : List Message)
        → read_console core policies r ms w
          ≡ receive_each core policies r ms (with_adapter r (reset a) w)
    unfolding read_console Adapter.reset_had_update
    read_with ms = rw (adapter_at-found r w found) refl

    -- A round in which nothing is read.
    await_nothing :
        (rest : List (List Message))
        → await_update core policies r ([] ∷ rest) w
          ≡ await_update core policies r rest (with_adapter r (reset a) w)
    unfolding await_update receive_each
    await_nothing rest =
        rw (read_with []) (rw (adapter_at-found r (with_adapter r (reset a) w) reset_found) refl)

    -- A round in which an update is read.
    await_one :
        (m : Message) (rest : List (List Message)) (w' : World Buffer State) (b : Adapter Buffer)
        → receive core policies r m (with_adapter r (reset a) w) ≡ ok w'
        → find r w'.adapters ≡ some b
        → b.had_update ≡ true
        → await_update core policies r ((m ∷ []) ∷ rest) w ≡ ok (some w')
    unfolding await_update receive_each
    await_one m rest w' b e f g = rw (read_with (m ∷ [])) (
        rw e (
          rw (adapter_at-found r w' f) (
            ap (λ h. elim h [ true ↦ ok (some w') | false ↦ await_update core policies r rest w' ])
              g)))

  -- As long as the console reads nothing, the loop goes on.
  pub await_update-quiet :
      (n : ℕ) (w : World Buffer State) (a : Adapter Buffer)
      → find r w.adapters ≡ some a
      → await_update core policies r (replicate n []) w ≡ ok none
  unfolding await_update
  await_update-quiet zero w a found = refl
  await_update-quiet (suc n) w a found =
      await_nothing w a found (replicate n [])
      ∙ await_update-quiet n (with_adapter r (reset a) w) (reset a) (reset_found w a found)

  -- After any number of reads that bring nothing the loop goes on, so that it does not end while the
  -- console brings nothing, as after the end of its input. It ends with a read that then brings one
  -- message, an update of an entry other than the string, if the console's policy drops none: the
  -- update's value is then in the registry, or the old one if they compare equal, and the registry goes
  -- on to handle messages.
  pub await_update-ends :
      (n : ℕ) (u : EntryType) (m : Message) (rest : List (List Message)) (w : World Buffer State)
      (a : Adapter Buffer)
      → IsServing core w
      → find r w.adapters ≡ some a
      → u ≢ string
      → m.property < entry_count u
      → type_of_num m.type ≡ some u
      → m.message_type ≡ update
      → KeepsAll a.dropper
      → (w' : World Buffer State) × (old : Value) × (await_update core policies r (replicate n []) w
          ≡ ok none)
        × (await_update core policies r (replicate n [] ++ (m ∷ []) ∷ rest) w ≡ ok (some w'))
        × IsServing core w'
        × (Registry.get w u m.property ≡ ok old)
        × (Registry.get w' u m.property
            ≡ ok (if value_eq old (carried core u m) then old else carried core u m))
  unfolding with_adapter Registry.get await_update
  await_update-ends zero u m rest w a s found ns within known is_update keeps =
      let ready = s.all_ready r a found in
      let s' =
        (Serves-with_adapter core r w a (reset a) s found (record {
          connected = ready.connected;
          slots = ready.slots;
          shaped = ready.shaped;
          policy_shaped = ready.policy_shaped;
        })).0 in
      let (w', old, e, serving, f, was, got, frame) =
        update_kept core policies r u m (with_adapter r (reset a) w) (reset a) s'
          (reset_found w a found) ns within known is_update keeps in
      (
        w',
        old,
        refl,
        await_one w a found m rest w' (reopened core a.dropper (reset a)) e f refl,
        serving,
        was,
        got,
      )
  await_update-ends (suc n) u m rest w a s found ns within known is_update keeps =
      let ready = s.all_ready r a found in
      let s' =
        (Serves-with_adapter core r w a (reset a) s found (record {
          connected = ready.connected;
          slots = ready.slots;
          shaped = ready.shaped;
          policy_shaped = ready.policy_shaped;
        })).0 in
      let (w', old, quiet, ends, serving, was, got) =
        await_update-ends n u m rest (with_adapter r (reset a) w) (reset a) s'
          (reset_found w a found) ns within known is_update keeps in
      (
        w',
        old,
        await_nothing w a found (replicate n []) ∙ quiet,
        await_nothing w a found (replicate n [] ++ (m ∷ []) ∷ rest) ∙ ends,
        serving,
        was,
        got,
      )
