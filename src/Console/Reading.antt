-- ===== src/Console/Reading.antt =====
-- `read`, called again and again.
use rbase.Base.{
  ℕ, zero, suc, ◌+◌, ◌≡◌, ◌<◌, refl, ap, ◌∙◌, false, List, ltb, lt→ltb, if◌then◌else◌, Option-cases,
  inl, inr, arith,
}
use rbase.RCore.{event_ok}
use rbase.Console.{
  Base64, RComm, Console, getline, payload, decode_text, parse_base64, parse_line, read,
}

module _ (b64 : Base64) (rcomm : RComm) where
  open rcomm use {Handle}

  -- Any number of calls.
  pub reads : ℕ → List (List ℕ) → Console Handle → List (List ℕ) × Console Handle
  reads zero input c = (input, c)
  reads (suc n) input c = let (rest, c', event) = read b64 rcomm input c in reads n rest c'

  -- Any number of lines that are read and parsed.
  pub parses : ℕ → List (List ℕ) → Console Handle → List (List ℕ) × Console Handle
  parses zero input c = (input, c)
  parses (suc n) input c =
      let (line, rest) = getline input in parses n rest (parse_line b64 rcomm line c).0

  read_timeout-parse_line :
      (line : List ℕ) (c : Console Handle)
      → (parse_line b64 rcomm line c).0.read_timeout ≡ c.read_timeout
  unfolding parse_line parse_base64
  read_timeout-parse_line line c = elim (Option-cases (payload line)) [
    | inl e ↦ rw (e, parse_line) refl
    | inr (text, e) ↦
        rw (e, parse_line)
          (elim (Option-cases (decode_text b64 text)) [
            | inl f ↦ rw (f, parse_base64) refl
            | inr (binary, f) ↦ rw (f, parse_base64) refl
          ])
  ]

  read_waits :
      (input : List (List ℕ)) (c : Console Handle)
      → c.read_timeout < 10
      → read b64 rcomm input c ≡ (input, record c { read_timeout = c.read_timeout + 1 }, event_ok)
  unfolding read
  read_waits input c h =
      let (line, rest) = getline input in
      let (c', event) = parse_line b64 rcomm line c in
      ap
        (λ b.
          if b
          then (input, record c { read_timeout = c.read_timeout + 1 }, event_ok)
          else (rest, c', event))
        (lt→ltb c.read_timeout 10 h)

  read_parses :
      (input : List (List ℕ)) (c : Console Handle)
      → c.read_timeout ≡ 10
      → read b64 rcomm input c ≡ (
        (getline input).1,
        (parse_line b64 rcomm (getline input).0 c).0,
        (parse_line b64 rcomm (getline input).0 c).1,
      )
  unfolding read
  read_parses input c e =
      let test : ltb c.read_timeout 10 ≡ false = ground arith in
      let (line, rest) = getline input in
      let (c', event) = parse_line b64 rcomm line c in
      ap
        (λ b.
          if b
          then (input, record c { read_timeout = c.read_timeout + 1 }, event_ok)
          else (rest, c', event))
        test

  reads_after :
      (n : ℕ) (input : List (List ℕ)) (c : Console Handle)
      → c.read_timeout ≡ 10
      → reads n input c ≡ parses n input c
  unfolding reads parses
  reads_after zero input c e = refl
  reads_after (suc n) input c e =
      let (line, rest) = getline input in
      ap (λ r. reads n r.0 r.1) (read_parses input c e)
      ∙ reads_after n rest (parse_line b64 rcomm line c).0 (read_timeout-parse_line line c ∙ e)

  -- An adapter skips its first ten calls of `read`, however many of them are left: they leave the
  -- input as it is and change only the counter. Each further call reads one line and parses it.
  pub reads-parses :
      (k n : ℕ) (input : List (List ℕ)) (c : Console Handle)
      → c.read_timeout + k ≡ 10
      → reads (k + n) input c ≡ parses n input (record c { read_timeout = 10 })
  unfolding reads
  reads-parses zero n input c e =
      let full : c.read_timeout ≡ 10 = omega arith in
      let count : 0 + n ≡ n = omega arith in
      ap (λ m. reads m input c) count
      ∙ reads_after n input c full
      ∙ ap (λ t. parses n input (record c { read_timeout = t })) full
  reads-parses (suc k) n input c e =
      let count : suc k + n ≡ suc (k + n) = omega arith in
      ap (λ m. reads m input c) count
      ∙ ap (λ r. reads (k + n) r.0 r.1) (read_waits input c (omega arith))
      ∙ reads-parses k n input (record c { read_timeout = c.read_timeout + 1 }) (omega arith)
