-- ===== src/Console/Codec.antt =====
-- A concrete base64, for the examples: RFC 4648 without padding.
use rbase.Base.{
  ℕ, zero, suc, ◌+◌, ◌-◌, ◌*◌, ◌/◌, ◌%◌, ◌<◌, ◌≡◌, ◌≢◌, refl, sym, ap, ◌∙◌, none, some, List, [],
  ◌∷◌, ◌++◌, length, replicate, ltb, ◌==◌, lt→ltb, map, Bool, true, ◌&&◌, if◌then◌else◌, arith,
}
use mathlib.Core.List.{map-append}
use rbase.Console.{Base64}
use rbase.Console.Framing.{All, IsByte, IsDigit, IsBase64}

-- The digit of a number below 64, and the number of a digit.
pub digit : ℕ → ℕ
digit n =
    if ltb n 26
    then b'A' + n
    else if ltb n 52
    then b'a' + n - 26
    else if ltb n 62
    then b'0' + n - 52
    else if n == 62
    then b'+'
    else b'/'

pub value : ℕ → ℕ
value c =
    if c == b'+'
    then 62
    else if c == b'/'
    then 63
    else if ltb c b'A'
    then c + 52 - b'0'
    else if ltb c b'a'
    then c - b'A'
    else c + 26 - b'a'

value-digit : (n : ℕ) → n < 64 → value (digit n) ≡ n
unfolding value digit
value-digit n h = ground arith

IsDigit-digit : (n : ℕ) → IsDigit (digit n)
unfolding digit
IsDigit-digit n = (λ e. ground arith, λ e. ground arith)

-- The numbers of the digits of some bytes.
pub encode_values : List ℕ → List ℕ
encode_values [] = []
encode_values (a ∷ []) = (a / 4) ∷ (a % 4 * 16) ∷ []
encode_values (a ∷ b ∷ []) = (a / 4) ∷ (a % 4 * 16 + b / 16) ∷ (b % 16 * 4) ∷ []
encode_values (a ∷ b ∷ c ∷ rest) =
    (a / 4) ∷ (a % 4 * 16 + b / 16) ∷ (b % 16 * 4 + c / 64) ∷ (c % 64) ∷ encode_values rest

-- The bytes of the digits' numbers.
pub decode_values : List ℕ → List ℕ
decode_values (w ∷ x ∷ y ∷ z ∷ rest) =
    (w * 4 + x / 16) ∷ (x % 16 * 16 + y / 4) ∷ (y % 4 * 64 + z) ∷ decode_values rest
decode_values (w ∷ x ∷ y ∷ []) = (w * 4 + x / 16) ∷ (x % 16 * 16 + y / 4) ∷ []
decode_values (w ∷ x ∷ []) = (w * 4 + x / 16) ∷ []
decode_values _ = []

abbrev is_digit : ℕ → Bool
is_digit c = ltb (value c) 64 && digit (value c) == c

abbrev all_digits : List ℕ → Bool
all_digits [] = true
all_digits (c ∷ cs) = is_digit c && all_digits cs

abbrev pub rfc4648 : Base64
rfc4648 = record {
  encode = λ bs. map digit (encode_values bs);
  decode = λ text. if all_digits text then some (decode_values (map value text)) else none;
}

encode_values-lt : (bs : List ℕ) → All IsByte bs → All (λ n. n < 64) (encode_values bs)
unfolding encode_values
encode_values-lt [] h = tt
encode_values-lt (a ∷ []) h = omega arith
encode_values-lt (a ∷ b ∷ []) h = omega arith
encode_values-lt (a ∷ b ∷ c ∷ rest) h =
    (omega arith, (omega arith, (omega arith, (omega arith, encode_values-lt rest h.1.1.1))))

length-encode_values : (bs : List ℕ) → length (encode_values bs) ≡ (4 * length bs + 2) / 3
unfolding encode_values
length-encode_values [] = refl
length-encode_values (a ∷ []) = refl
length-encode_values (a ∷ b ∷ []) = refl
length-encode_values (a ∷ b ∷ c ∷ rest) = omega (arith, length-encode_values rest)

length-map : (f : ℕ → ℕ) (xs : List ℕ) → length (map f xs) ≡ length xs
length-map f [] = refl
length-map f (x ∷ xs) = ap suc (length-map f xs)

cons-eq : {a b : ℕ} {xs ys : List ℕ} → a ≡ b → xs ≡ ys → a ∷ xs ≡ b ∷ ys
cons-eq e f = cc

-- The digits of numbers below 64 are digits, and are read as those numbers.
digits_read :
    (vs : List ℕ)
    → All (λ n. n < 64) vs
    → (all_digits (map digit vs) ≡ true) × (map value (map digit vs) ≡ vs)
digits_read [] h = (refl, refl)
digits_read (v ∷ vs) h =
    let (good, read) = digits_read vs h.1 in
    let e = value-digit v h.0 in (ground (arith, lt→ltb v 64, ap digit e), cons-eq e read)

same_zeros : (m n : ℕ) → m ≡ n → replicate {A = ℕ} m 0 ≡ replicate n 0
same_zeros m n e = ap (λ k. replicate k 0) e

zeros_decoded : (k : ℕ) → k % 4 ≢ 1 → decode_values (replicate k 0) ≡ replicate (3 * k / 4) 0
unfolding decode_values
zeros_decoded zero h = refl
zeros_decoded (suc zero) h = absurd (h refl)
zeros_decoded (suc (suc zero)) h = refl
zeros_decoded (suc (suc (suc zero))) h = refl
zeros_decoded (suc (suc (suc (suc k)))) h =
    ap (λ zs. 0 ∷ 0 ∷ 0 ∷ zs) (zeros_decoded k (λ e. h (omega (arith, e))))
    ∙ same_zeros (suc (suc (suc (3 * k / 4)))) (3 * suc (suc (suc (suc k))) / 4) (omega arith)

values_decoded :
    (bs : List ℕ) (k : ℕ)
    → All IsByte bs
    → (length (encode_values bs) + k) % 4 ≢ 1
    → decode_values (encode_values bs ++ replicate k 0)
      ≡ bs ++ replicate (3 * (length (encode_values bs) + k) / 4 - length bs) 0
unfolding encode_values decode_values
values_decoded [] k bytes h =
    zeros_decoded k (λ e. h (omega (arith, e)))
    ∙ same_zeros (3 * k / 4) (3 * (0 + k) / 4 - 0) (omega arith)
values_decoded (a ∷ []) zero bytes h = cons-eq (omega arith) refl
values_decoded (a ∷ []) (suc zero) bytes h = cons-eq (omega arith) (cons-eq (omega arith) refl)
values_decoded (a ∷ []) (suc (suc k)) bytes h = cons-eq (omega arith) (
    cons-eq (omega arith) (cons-eq (omega arith) (zeros_decoded k (λ e. h (omega (arith, e)))))
    ∙ same_zeros (suc (suc (3 * k / 4))) (3 * (2 + suc (suc k)) / 4 - 1) (omega arith))
values_decoded (a ∷ b ∷ []) zero bytes h = cons-eq (omega arith) (cons-eq (omega arith) refl)
values_decoded (a ∷ b ∷ []) (suc k) bytes h = cons-eq (omega arith) (
    cons-eq (omega arith) (
      cons-eq (omega arith) (zeros_decoded k (λ e. h (omega (arith, e))))
      ∙ same_zeros (suc (3 * k / 4)) (3 * (3 + suc k) / 4 - 2) (omega arith)))
values_decoded (a ∷ b ∷ c ∷ rest) k bytes h =
    let n = length (encode_values rest) in
    cons-eq (omega arith) (
      cons-eq (omega arith) (
        cons-eq (omega arith) (
          values_decoded rest k bytes.1.1.1 (λ e. h (omega (arith, e)))
          ∙ ap (λ zs. rest ++ zs)
              (same_zeros (3 * (n + k) / 4 - length rest)
                (3 * (suc (suc (suc (suc n))) + k) / 4 - suc (suc (suc (length rest))))
                (omega arith)))))

zeros_digits : (k : ℕ) → map digit (replicate k 0) ≡ replicate k b'A'
unfolding digit
zeros_digits zero = refl
zeros_digits (suc k) = ap (◌∷◌ b'A') (zeros_digits k)

All-append :
    (xs ys : List ℕ) → All (λ n. n < 64) xs → All (λ n. n < 64) ys → All (λ n. n < 64) (xs ++ ys)
All-append [] ys h k = k
All-append (x ∷ xs) ys h k = (h.0, All-append xs ys h.1 k)

zeros_lt : (k : ℕ) → All (λ n. n < 64) (replicate k 0)
zeros_lt zero = tt
zeros_lt (suc k) = (omega arith, zeros_lt k)

All-digit : (vs : List ℕ) → All IsDigit (map digit vs)
All-digit [] = tt
All-digit (v ∷ vs) = (IsDigit-digit v, All-digit vs)

text_decoded :
    (bs : List ℕ) (k : ℕ)
    → All IsByte bs
    → (length (rfc4648.encode bs) + k) % 4 ≢ 1
    → rfc4648.decode (rfc4648.encode bs ++ replicate k b'A')
      ≡ some (bs ++ replicate (3 * (length (rfc4648.encode bs) + k) / 4 - length bs) 0)
text_decoded bs k bytes h =
    let vs = encode_values bs in
    let all = vs ++ replicate k 0 in
    let (good, read) =
      digits_read all (All-append vs (replicate k 0) (encode_values-lt bs bytes) (zeros_lt k)) in
    let n = length-map digit vs in
    let whole : map digit vs ++ replicate k b'A' ≡ map digit all =
      ap (λ l. map digit vs ++ l) (sym (zeros_digits k))
      ∙ sym (map-append digit vs (replicate k 0)) in
    ap rfc4648.decode whole
    ∙ rw good (
        ap (λ l. some (decode_values l)) read
        ∙ ap some (
            values_decoded bs k bytes (λ e. h (omega (arith, n, e)))
            ∙ ap (λ m. bs ++ replicate (3 * (m + k) / 4 - length bs) 0) (sym n)))

pub rfc4648-IsBase64 : IsBase64 rfc4648
rfc4648-IsBase64 = record {
  length-encode = λ bs. length-map digit (encode_values bs) ∙ length-encode_values bs;
  encode-digits = λ bs. All-digit (encode_values bs);
  decode-encode = text_decoded;
}
