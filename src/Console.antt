-- ===== src/Console.antt =====
-- RSupport/src/ConsoleAdapter.cpp and RSupport/include/RSupport/ConsoleAdapter.hpp: the adapter whose
-- connection is a console, with packets as lines of base64. A text is the list of its character codes.
mod Codec
pub mod Framing
pub mod Lines
pub mod Bits
pub mod Reading
mod Examples
use rbase.Base.{
  ℕ, zero, suc, ◌+◌, ◌-◌, ◌*◌, ◌/◌, ◌%◌, Bool, true, false, ◌&&◌, Option, none, some, List, [], ◌∷◌,
  ◌++◌, map, length, get_elem?, take, replicate, ltb, ◌==◌, if◌then◌else◌,
}
use rbase.Base.Outcome.{Outcome, ok, fault, or_fault, assertion, out_of_bounds, ◌>>=◌}
use rbase.RCore.{Event, event_ok, generic_acceptor_error}

-- The iterators of boost: `encode` is what `base64Iterator` yields between two pointers, `decode` what
-- `binaryIt` yields from a text, or `none` if it throws a `dataflow_exception`.
pub record Base64 : Type 0 where
  pub encode : List ℕ → List ℕ
  pub decode : List ℕ → Option (List ℕ)

-- The handle of RComm: `rcomm_parse_bytes`, and `rcomm_send_tb_entry` with the packets for which it
-- calls the transmit callback.
pub record RComm : Type 1 where
  pub Handle : Type 0
  pub Entry : Type 0
  pub parse_bytes : List ℕ → Handle → Handle × Event
  pub send_tb_entry : Entry → Handle → Handle × List (List ℕ) × Event

-- `ConsoleAdapter::Mode`.
pub data Mode : Type 0 where
  stdout callback mixed : Mode

-- `mode & STDOUT` and `mode & CALLBACK`.
abbrev pub has_stdout : Mode → Bool
has_stdout callback = false
has_stdout _ = true

abbrev pub has_callback : Mode → Bool
has_callback stdout = false
has_callback _ = true

-- The members. A callback is a number that stands for the function; `printed` are the lines on the
-- console, without their ends, and `called` the calls of the callbacks, with their text.
pub record Console (H : Type 0) : Type 0 where
  pub callbacks : List ℕ
  pub mode : Mode
  pub read_timeout : ℕ
  pub handle : H
  pub printed : List (List ℕ)
  pub called : List (ℕ × List ℕ)

-- The constructor, over the members of the base class.
pub new_console : {H : Type 0} → H → Console H
new_console h = record {
  callbacks = [];
  mode = stdout;
  read_timeout = 0;
  handle = h;
  printed = [];
  called = [];
}

pub add_callback : {H : Type 0} → ℕ → Console H → Console H
add_callback f c = record c { callbacks = c.callbacks ++ f ∷ [] }

pub set_mode : {H : Type 0} → Mode → Console H → Console H
set_mode m c = record c { mode = m }

-- `calculateCorrectDataLength`.
unfoldable pub calculate_correct_data_length : ℕ → ℕ
calculate_correct_data_length n = (n / 8) * 8 + 1

-- The signs that the loop `while(writePaddChars >= 0)` still has to write at first: the variable is one
-- less.
unfoldable pub padd_signs : ℕ → ℕ
padd_signs bytes = (3 - bytes % 3) % 3 + 1 + 1

-- "!:", the text and the signs.
unfoldable pub frame : List ℕ → ℕ → List ℕ
frame text signs = b'!' ∷ b':' ∷ text ++ replicate signs b'='

module _ (b64 : Base64) {H : Type 0} where
  -- The output to the console, and the signs that are left for the callbacks.
  pub print_line : List ℕ → ℕ → Console H → Console H × ℕ
  unfolding frame
  print_line packet signs c =
      if has_stdout c.mode
      then (record c { printed = c.printed ++ frame (b64.encode packet) signs ∷ [] }, 0)
      else (c, signs)

  -- The calls of the callbacks.
  pub call_back : List ℕ → ℕ → Console H → Console H
  unfolding frame
  call_back packet signs c =
      if has_callback c.mode
      then record c {
        called = c.called ++ map (λ f. (f, frame (b64.encode packet) signs ++ 10 ∷ [])) c.callbacks;
      }
      else c

  -- The transmit callback.
  pub transmit : List ℕ → Console H → Outcome (Console H)
  unfolding print_line call_back padd_signs
  transmit packet c =
      if length packet == 0
      then fault assertion
      else let (c', signs) = print_line packet (padd_signs (length packet)) c in
        ok (call_back packet signs c')

  -- One call for each packet.
  pub transmit_all : List (List ℕ) → Console H → Outcome (Console H)
  unfolding transmit
  transmit_all [] c = ok c
  transmit_all (packet ∷ rest) c = do c' ← transmit packet c; transmit_all rest c'

-- `line.substr(0, line.find('\n'))`.
unfoldable pub first_line : List ℕ → List ℕ
first_line [] = []
first_line (c ∷ cs) = let rest = first_line cs in if c == 10 then [] else c ∷ rest

-- `std::replace(…, '=', 'A')`.
unfoldable pub replace_signs : List ℕ → List ℕ
replace_signs text = map (λ c. if c == b'=' then b'A' else c) text

-- The text after "!:", if the line starts so and is longer.
unfoldable pub payload : List ℕ → Option (List ℕ)
payload (a ∷ b ∷ c ∷ rest) = if a == b'!' && b == b':' then some (c ∷ rest) else none
payload _ = none

-- What is read at `data()` of a `std::string`: its characters and the zero after them.
unfoldable pub read_data : List ℕ → List ℕ
unfolding calculate_correct_data_length
read_data binary = take (calculate_correct_data_length (length binary)) (binary ++ 0 ∷ [])

-- `std::getline`: at the end of the input the line is empty.
pub getline : List (List ℕ) → List ℕ × List (List ℕ)
getline [] = ([], [])
getline (line ∷ rest) = (line, rest)

module _ (b64 : Base64) where
  -- The binary of a base64 text, if there is one.
  pub decode_text : List ℕ → Option (List ℕ)
  unfolding first_line replace_signs
  decode_text text = b64.decode (replace_signs (first_line text))

  -- `extractBinaryStreamFromLine`; `none` is an exception, which it does not catch.
  pub extract_binary_stream_from_line : List ℕ → Option (List ℕ)
  unfolding payload decode_text
  extract_binary_stream_from_line line = elim (payload line) [
    | none ↦ some []
    | some text ↦ decode_text text
  ]

  module _ (rcomm : RComm) where
    open rcomm use {Handle, Entry, parse_bytes, send_tb_entry}

    -- `parseBase64`.
    pub parse_base64 : List ℕ → Console Handle → Console Handle × Event
    unfolding decode_text read_data
    parse_base64 text c = elim (decode_text text) [
      | none ↦ (c, generic_acceptor_error)
      | some binary ↦
          let (h, event) = parse_bytes (read_data binary) c.handle in
          (record c { handle = h }, event)
    ]

    -- `parseLine`.
    pub parse_line : List ℕ → Console Handle → Console Handle × Event
    unfolding payload parse_base64
    parse_line line c = elim (payload line) [
      | none ↦ (c, event_ok)
      | some text ↦ parse_base64 text c
    ]

    -- `read`, with the lines of the standard input that have not been read.
    pub read : List (List ℕ) → Console Handle → List (List ℕ) × Console Handle × Event
    unfolding parse_line getline
    read input c =
        if ltb c.read_timeout 10
        then (input, record c { read_timeout = c.read_timeout + 1 }, event_ok)
        else let (line, rest) = getline input in
          let (c', event) = parse_line line c in (rest, c', event)

    -- `send`.
    pub send : Entry → Console Handle → Outcome (Console Handle × Event)
    unfolding transmit_all
    send entry c = do
      let (h, packets, event) = send_tb_entry entry c.handle
      c' ← transmit_all b64 packets (record c { handle = h })
      ok (c', event)

-- `std::bitset<8>`, printed: the highest bit first.
unfoldable pub bits : ℕ → ℕ → List ℕ
bits zero n = []
bits (suc k) n = bits k (n / 2) ++ (b'0' + n % 2) ∷ []

-- The loop of `binaryStreamToBitRepresentation`, with the rounds that are left: `binary[i]` may be
-- read up to the zero at the end.
pub bit_loop : List ℕ → ℕ → ℕ → Outcome (List ℕ)
unfolding bits
bit_loop binary zero i = ok []
bit_loop binary (suc n) i = do
  byte ← or_fault (get_elem? (binary ++ 0 ∷ []) i) out_of_bounds
  rest ← bit_loop binary n (suc i)
  ok (bits 8 byte ++ b' ' ∷ rest)

-- `binaryStreamToBitRepresentation`.
pub binary_stream_to_bit_representation : List ℕ → Outcome (List ℕ)
unfolding bit_loop calculate_correct_data_length
binary_stream_to_bit_representation binary =
    bit_loop binary (calculate_correct_data_length (length binary)) 0
