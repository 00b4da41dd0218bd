-- ===== src/Console/Framing.antt =====
-- A line with a packet, read by another adapter.
use rbase.Base.{
  ℕ, zero, suc, ◌+◌, ◌-◌, ◌*◌, ◌/◌, ◌%◌, ◌≤◌, ◌<◌, ◌≡◌, ◌≢◌, ◌↔◌, refl, ap, ◌∙◌, some, List, [],
  ◌∷◌, ◌++◌, length, take, replicate, length-append, length-replicate, ◌⊎◌, inl, inr, arith,
}
use mathlib.Core.List.{append_assoc}
use rbase.Console.{
  Base64, RComm, Console, padd_signs, frame, first_line, replace_signs, payload, read_data,
  calculate_correct_data_length, decode_text, parse_base64, parse_line,
}

abbrev pub All : (ℕ → Type 0) → List ℕ → Type 0
All P [] = Unit {0}
All P (x ∷ xs) = P x × All P xs

abbrev pub IsByte : ℕ → Type 0
IsByte b = b < 256

-- A base64 digit is no end of a line and no sign of padding.
abbrev pub IsDigit : ℕ → Type 0
IsDigit c = (c ≢ 10) × (c ≢ b'=')

-- What boost documents of its iterators: four digits for three bytes, the last group cut short; and
-- digits 'A' behind them are read as zeros, where the last group has more than one digit.
pub record IsBase64 (b64 : Base64) : Type 0 where
  pub length-encode : (bs : List ℕ) → length (b64.encode bs) ≡ (4 * length bs + 2) / 3
  pub encode-digits : (bs : List ℕ) → All IsDigit (b64.encode bs)
  pub decode-encode :
      (bs : List ℕ) (k : ℕ)
      → All IsByte bs
      → (length (b64.encode bs) + k) % 4 ≢ 1
      → b64.decode (b64.encode bs ++ replicate k b'A')
        ≡ some (bs ++ replicate (3 * (length (b64.encode bs) + k) / 4 - length bs) 0)

length-take : (n : ℕ) (xs : List ℕ) → n ≤ length xs → length (take n xs) ≡ n
length-take zero xs h = refl
length-take (suc n) [] h = absurd (omega arith)
length-take (suc n) (x ∷ xs) h = ap suc (length-take n xs (omega arith))

take-append : (xs ys : List ℕ) → take (length xs) (xs ++ ys) ≡ xs
take-append [] ys = refl
take-append (x ∷ xs) ys = ap (◌∷◌ x) (take-append xs ys)

-- The end of a line, if it has one.
abbrev pub IsEnd : List ℕ → Type 0
IsEnd e = (e ≡ []) ⊎ (e ≡ 10 ∷ [])

first_line-signs :
    (k : ℕ) (e : List ℕ) → IsEnd e → first_line (replicate k b'=' ++ e) ≡ replicate k b'='
unfolding first_line
first_line-signs zero e (inl h) = ap first_line h
first_line-signs zero e (inr h) = ap first_line h
first_line-signs (suc k) e h = ap (◌∷◌ b'=') (first_line-signs k e h)

first_line-digits :
    (ds rest : List ℕ) → All IsDigit ds → first_line (ds ++ rest) ≡ ds ++ first_line rest
unfolding first_line
first_line-digits [] rest h = refl
first_line-digits (d ∷ ds) rest h = ground (arith, first_line-digits ds rest h.1, h.0)

replace_signs-signs : (k : ℕ) → replace_signs (replicate k b'=') ≡ replicate k b'A'
unfolding replace_signs
replace_signs-signs zero = refl
replace_signs-signs (suc k) = ap (◌∷◌ b'A') (replace_signs-signs k)

replace_signs-digits :
    (ds rest : List ℕ) → All IsDigit ds → replace_signs (ds ++ rest) ≡ ds ++ replace_signs rest
unfolding replace_signs
replace_signs-digits [] rest h = refl
replace_signs-digits (d ∷ ds) rest h = ground (arith, replace_signs-digits ds rest h.1, h.0)

payload-frame :
    (ds : List ℕ) (k : ℕ) (e : List ℕ)
    → 0 < length ds
    → payload (frame ds k ++ e) ≡ some (ds ++ replicate k b'=' ++ e)
unfolding payload frame
payload-frame [] k e h = absurd (omega arith)
payload-frame (d ∷ ds) k e h = refl

module _ (b64 : Base64) (laws : IsBase64 b64) (bs : List ℕ) (k : ℕ) (e : List ℕ)
    (bytes : All IsByte bs) (some_byte : 0 < length bs)
    (signs : (k ≡ 0) ⊎ (k ≡ padd_signs (length bs))) (end : IsEnd e) where
  abbrev zeros : ℕ
  zeros = 3 * (length (b64.encode bs) + k) / 4 - length bs

  abbrev text : List ℕ
  text = b64.encode bs ++ replicate k b'=' ++ e

  few_zeros : zeros ≤ 3
  unfolding padd_signs
  few_zeros = elim signs [
    | inl h ↦ omega (arith, laws.length-encode bs, h)
    | inr h ↦ omega (arith, laws.length-encode bs, h)
  ]

  whole_digits : (length (b64.encode bs) + k) % 4 ≢ 1
  unfolding padd_signs
  whole_digits one = elim signs [
    | inl h ↦ omega (arith, laws.length-encode bs, h)
    | inr h ↦ omega (arith, laws.length-encode bs, h)
  ]

  text_decoded : decode_text b64 text ≡ some (bs ++ replicate zeros 0)
  unfolding decode_text
  text_decoded =
      ap (λ l. b64.decode (replace_signs l))
        (ap first_line (append_assoc (b64.encode bs) (replicate k b'=') e)
          ∙ first_line-digits (b64.encode bs) (replicate k b'=' ++ e) (laws.encode-digits bs)
          ∙ ap (λ l. b64.encode bs ++ l) (first_line-signs k e end))
      ∙ ap b64.decode (
          replace_signs-digits (b64.encode bs) (replicate k b'=') (laws.encode-digits bs)
          ∙ ap (λ l. b64.encode bs ++ l) (replace_signs-signs k))
      ∙ laws.decode-encode bs k bytes whole_digits

  abbrev handed : List ℕ
  handed = read_data (bs ++ replicate zeros 0)

  handed_count : length handed ≡ calculate_correct_data_length (length bs + zeros)
  unfolding read_data calculate_correct_data_length
  handed_count =
      let n = length (bs ++ replicate zeros 0) in
      let long = length-append (bs ++ replicate zeros 0) (0 ∷ []) in
      let whole = length-append bs (replicate zeros 0) in
      length-take ((n / 8) * 8 + 1) ((bs ++ replicate zeros 0) ++ 0 ∷ []) (omega (arith, long))
      ∙ omega (arith, whole, length-replicate {A = ℕ} zeros 0)

  -- The packet is handed on as it was where its length is one more than a multiple of 8.
  handed_whole : length bs % 8 ≡ 1 → handed ≡ bs
  unfolding read_data calculate_correct_data_length
  handed_whole h =
      let n = length (bs ++ replicate zeros 0) in
      let count : (n / 8) * 8 + 1 ≡ length bs = omega (
        arith,
        length-append bs (replicate zeros 0),
        length-replicate {A = ℕ} zeros 0,
        few_zeros,
      ) in
      ap (λ m. take m ((bs ++ replicate zeros 0) ++ 0 ∷ [])) count
      ∙ ap (take (length bs)) (append_assoc bs (replicate zeros 0) (0 ∷ []))
      ∙ take-append bs (replicate zeros 0 ++ 0 ∷ [])

  -- Of any other length it never is.
  handed_iff : (handed ≡ bs) ↔ (length bs % 8 ≡ 1)
  unfolding calculate_correct_data_length
  handed_iff = (λ h. omega (arith, handed_count, ap length h), handed_whole)

  encode_some : 0 < length (b64.encode bs)
  encode_some = omega (arith, laws.length-encode bs)

  -- The line of a packet, with the end of a line or without, and with the signs of padding or
  -- without: whoever parses it hands bytes to RComm, namely the packet itself, exactly if the
  -- packet's length is one more than a multiple of 8.
  pub parse_line-frame :
      (rcomm : RComm) (d : Console rcomm.Handle)
      → (packet : List ℕ) × (parse_line b64 rcomm (frame (b64.encode bs) k ++ e) d ≡ (
        record d { handle = (rcomm.parse_bytes packet d.handle).0 },
        (rcomm.parse_bytes packet d.handle).1,
      ))
        × ((packet ≡ bs) ↔ (length bs % 8 ≡ 1))
  unfolding parse_line parse_base64
  parse_line-frame rcomm d = (
    handed,
    rw (payload-frame (b64.encode bs) k e encode_some, parse_line)
        (rw (text_decoded, parse_base64) refl),
    handed_iff,
  )
