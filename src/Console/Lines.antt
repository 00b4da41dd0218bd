-- ===== src/Console/Lines.antt =====
-- What the transmit callback writes, and what becomes of it at the other end.
use rbase.Base.{
  ℕ, ◌%◌, ◌<◌, ◌≡◌, ◌↔◌, refl, sym, ap, false, List, [], ◌∷◌, ◌++◌, subst, ◌⊎◌, map, length, ◌==◌,
  if◌then◌else◌, inl, inr, arith,
}
use mathlib.Core.List.{append-nil}
use rbase.Base.Outcome.{ok}
use rbase.Console.{
  Base64, RComm, Console, Mode, stdout, callback, mixed, has_stdout, has_callback, frame,
  padd_signs, print_line, call_back, transmit, parse_line,
}
use rbase.Console.Framing.{All, IsByte, IsEnd, IsBase64, parse_line-frame}

module _ (b64 : Base64) (rcomm : RComm) where
  open rcomm use {Handle, parse_bytes}

  -- Any adapter that parses the line hands bytes to RComm, and these are the packet exactly if its
  -- length is one more than a multiple of 8.
  abbrev pub Carries : List ℕ → List ℕ → Type 0
  Carries packet line =
      (d : Console Handle)
      → (bytes : List ℕ) × (parse_line b64 rcomm line d
          ≡ (record d { handle = (parse_bytes bytes d.handle).0 }, (parse_bytes bytes d.handle).1))
        × ((bytes ≡ packet) ↔ (length packet % 8 ≡ 1))

  -- The packet is not empty, and its elements are bytes.
  module _ (laws : IsBase64 b64) (packet : List ℕ) (bytes : All IsByte packet)
      (some_byte : 0 < length packet) where
    abbrev line : ℕ → List ℕ
    line k = frame (b64.encode packet) k

    -- The signs that the console's output leaves for the callbacks.
    abbrev signs_left : Mode → ℕ
    signs_left callback = padd_signs (length packet)
    signs_left _ = 0

    not_empty : (length packet == 0) ≡ false
    not_empty = ground arith

    sent_at :
        (m : Mode) (c : Console Handle)
        → transmit b64 packet (record c { mode = m })
          ≡ ok (record c {
            mode = m;
            printed =
                c.printed ++ (if has_stdout m then line (padd_signs (length packet)) ∷ [] else []);
            called =
                c.called
                ++ (if has_callback m
                    then map (λ f. (f, line (signs_left m) ++ 10 ∷ [])) c.callbacks
                    else []);
          })
    unfolding transmit print_line call_back
    sent_at stdout c = rw not_empty (
        ap
          (λ l. ok (record c {
            mode = stdout;
            printed = c.printed ++ line (padd_signs (length packet)) ∷ [];
            called = l;
          }))
          (sym (append-nil c.called)))
    sent_at callback c = rw not_empty (
        ap
          (λ l. ok (record c {
            mode = callback;
            printed = l;
            called =
                c.called
                ++ map (λ f. (f, line (padd_signs (length packet)) ++ 10 ∷ [])) c.callbacks;
          }))
          (sym (append-nil c.printed)))
    sent_at mixed c = rw not_empty refl

    Carries-line :
        (k : ℕ) (e : List ℕ)
        → (k ≡ 0) ⊎ (k ≡ padd_signs (length packet))
        → IsEnd e
        → Carries packet (line k ++ e)
    Carries-line k e signs end d =
        parse_line-frame b64 laws packet k e bytes some_byte signs end rcomm d

    signs_left_cases : (m : Mode) → (signs_left m ≡ 0) ⊎ (signs_left m ≡ padd_signs (length packet))
    signs_left_cases callback = inr refl
    signs_left_cases stdout = inl refl
    signs_left_cases mixed = inl refl

    -- The transmit callback, for a packet of some bytes, ends without a fault: in the modes STDOUT
    -- and MIXED it prints one line, in CALLBACK and MIXED it calls each callback once, in order, with
    -- one line, and it changes nothing else. An adapter that parses either line hands bytes to RComm,
    -- which are the packet exactly if its length is one more than a multiple of 8.
    pub transmit-Carries :
        (c : Console Handle)
        → (printed : List ℕ) × (called : List ℕ) × (transmit b64 packet c
            ≡ ok (record c {
              printed = c.printed ++ (if has_stdout c.mode then printed ∷ [] else []);
              called =
                  c.called
                  ++ (if has_callback c.mode then map (λ f. (f, called)) c.callbacks else []);
            }))
          × Carries packet printed
          × Carries packet called
    transmit-Carries c = (
      line (padd_signs (length packet)),
      line (signs_left c.mode) ++ 10 ∷ [],
      sent_at c.mode c,
      subst (Carries packet) (append-nil (line (padd_signs (length packet))))
          (Carries-line (padd_signs (length packet)) [] (inr refl) (inl refl)),
      Carries-line (signs_left c.mode) (10 ∷ []) (signs_left_cases c.mode) (inr refl),
    )
