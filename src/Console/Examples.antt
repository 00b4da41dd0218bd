-- ===== src/Console/Examples.antt =====
-- A console with one callback, and a RComm that keeps the bytes it is handed.
use rbase.Base.{ℕ, ◌≡◌, refl, List, [], ◌∷◌, ◌++◌, arith}
use rbase.Base.Outcome.{ok}
use rbase.RCore.{event_ok}
use rbase.Console.{
  RComm, Console, mixed, transmit, binary_stream_to_bit_representation,
  calculate_correct_data_length, read_data, bits,
}
use rbase.Console.Codec.{rfc4648, rfc4648-IsBase64}
use rbase.Console.Lines.{Carries, transmit-Carries}
use rbase.Console.Bits.{bits_of_data}
use rbase.Console.Reading.{reads, parses, reads-parses}

abbrev keeping : RComm
keeping = record {
  Handle = List ℕ;
  Entry = List ℕ;
  parse_bytes = λ bytes h. (h ++ bytes, event_ok);
  send_tb_entry = λ packet h. (h, packet ∷ [], event_ok);
}

abbrev console : Console (List ℕ)
console = record {
  callbacks = 7 ∷ [];
  mode = mixed;
  read_timeout = 0;
  handle = [];
  printed = [];
  called = [];
}

-- Nine bytes.
abbrev packet : List ℕ
packet = 1 ∷ 2 ∷ 3 ∷ 4 ∷ 5 ∷ 6 ∷ 7 ∷ 8 ∷ 255 ∷ []

transmit-Carries_example :
    (printed : List ℕ) × (called : List ℕ) × (transmit rfc4648 packet console
      ≡ ok (record console { printed = printed ∷ []; called = (7, called) ∷ [] }))
    × Carries rfc4648 keeping packet printed
    × Carries rfc4648 keeping packet called
transmit-Carries_example =
    transmit-Carries rfc4648 keeping rfc4648-IsBase64 packet (omega arith) (omega arith) console

bits_of_data_example :
    binary_stream_to_bit_representation (1 ∷ 255 ∷ []) ≡ ok (bits 8 1 ++ b' ' ∷ [])
unfolding read_data calculate_correct_data_length
bits_of_data_example = bits_of_data (1 ∷ 255 ∷ [])

reads-parses_example :
    reads rfc4648 keeping 12 ((b'a' ∷ []) ∷ []) console
    ≡ parses rfc4648 keeping 2 ((b'a' ∷ []) ∷ []) (record console { read_timeout = 10 })
reads-parses_example = reads-parses rfc4648 keeping 10 2 ((b'a' ∷ []) ∷ []) console refl
