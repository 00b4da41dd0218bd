-- ===== src/Console/Bits.antt =====
-- The bits of a binary, as `binaryStreamToBitRepresentation` prints them.
use rbase.Base.{
  ℕ, zero, suc, ◌+◌, ◌*◌, ◌/◌, ◌≤◌, ◌≡◌, refl, sym, ap, some, List, [], ◌∷◌, ◌++◌, length, take,
  drop, get_elem?, get_elem?_of_lt, length-append, arith,
}
use rbase.Base.Outcome.{ok}
use rbase.Console.{
  bits, bit_loop, binary_stream_to_bit_representation, calculate_correct_data_length, read_data,
}

-- The bits of some bytes, each byte with a blank behind it.
abbrev pub bit_text : List ℕ → List ℕ
bit_text [] = []
bit_text (b ∷ bs) = bits 8 b ++ b' ' ∷ bit_text bs

take-drop :
    (xs : List ℕ) (i n : ℕ) (b : ℕ)
    → get_elem? xs i ≡ some b
    → take (suc n) (drop i xs) ≡ b ∷ take n (drop (suc i) xs)
take-drop [] i n b e = cc
take-drop (x ∷ xs) zero n b e = cc
take-drop (x ∷ xs) (suc i) n b e = take-drop xs i n b e

loop_read :
    (binary : List ℕ) (n i : ℕ)
    → i + n ≤ length (binary ++ 0 ∷ [])
    → bit_loop binary n i ≡ ok (bit_text (take n (drop i (binary ++ 0 ∷ []))))
unfolding bit_loop
loop_read binary zero i h = refl
loop_read binary (suc n) i h =
    let (b, e) = get_elem?_of_lt (binary ++ 0 ∷ []) i (omega arith) in
    rw e (
      rw (loop_read binary n (suc i) (omega arith))
        (ap (λ l. ok (bit_text l)) (sym (take-drop (binary ++ 0 ∷ []) i n b e))))

-- The loop over the calculated length stays within the string and the zero at its end, and prints the
-- bits of the very bytes that `parseBase64` would hand to RComm.
pub bits_of_data :
    (binary : List ℕ)
    → binary_stream_to_bit_representation binary ≡ ok (bit_text (read_data binary))
unfolding binary_stream_to_bit_representation read_data calculate_correct_data_length
bits_of_data binary =
    loop_read binary ((length binary / 8) * 8 + 1) 0 (omega (arith, length-append binary (0 ∷ [])))
