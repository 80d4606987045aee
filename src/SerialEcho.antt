-- ===== src/SerialEcho.antt =====
-- The callbacks of examples/generic_default/serial/main.c: each timer tick sends a test message,
-- and what comes back is counted and printed as hexadecimal digits. Characters are their codes.
pub mod Dump
pub mod Loop
mod Tests
use halm_examples.Base.{
  ℕ, zero, suc, ◌+◌, ◌-◌, ◌*◌, ◌/◌, ◌%◌, ◌^◌, Bool, true, false, ◌&&◌, Option, none, some, List, [],
  ◌∷◌, ◌++◌, length, ltb, leb, ◌==◌, if◌then◌else◌,
}

abbrev pub buffer_size : ℕ
buffer_size = 64

abbrev pub message_size : ℕ
message_size = 16

abbrev pub max_iterations : ℕ
max_iterations = 10

-- The result is a `uint8_t`.
unfoldable pub bin_to_hex : ℕ → ℕ
bin_to_hex value = (value + (if ltb value 10 then 0x30 else 0x37)) % 2 ^ 8

-- `buffer[i] >> 4`, as the `uint8_t` that binToHex takes. Where `char` is signed, the shift of a
-- negative value keeps its sign.
unfoldable pub high_digit : (signed : Bool) → ℕ → ℕ
high_digit signed b = if signed && leb 128 b then (b / 16 + 240) % 2 ^ 8 else b / 16

-- The loop of onSerialEvent from index `i` on.
unfoldable pub serialize_from : (signed : Bool) (i len : ℕ) → List ℕ → List ℕ
serialize_from signed i len [] = []
serialize_from signed i len (b ∷ bs) =
    let rest = serialize_from signed (i + 1) len bs in
    bin_to_hex (high_digit signed b)
    ∷ bin_to_hex (b % 16)
    ∷ (if i == len - 1 then rest else 0x20 ∷ rest)

-- "RX: [", the bytes and "]\r\n"
unfoldable pub serialized : (signed : Bool) → List ℕ → List ℕ
serialized signed bytes =
    (0x52 ∷ 0x58 ∷ 0x3A ∷ 0x20 ∷ 0x5B ∷ [])
    ++ serialize_from signed 0 (length bytes) bytes
    ++ (0x5D ∷ 0x0D ∷ 0x0A ∷ [])

-- The number of received bytes, and what has been printed of them.
pub record Context : Type 0 where
  pub counter : ℕ
  pub printed : List (List ℕ)

-- `bytes` is what `ifRead` gives, at most buffer_size bytes; `size_t` has 64 bits.
unfoldable pub on_serial_event : (signed : Bool) → List ℕ → Context → Context
on_serial_event signed bytes context =
    let counter = (context.counter + length bytes) % 2 ^ 64 in
    if ltb 0 (length bytes)
    then record { counter = counter; printed = context.printed ++ (serialized signed bytes ∷ []) }
    else record { counter = counter; printed = context.printed }

-- The last `width` decimal digits.
unfoldable pub decimal : (width n : ℕ) → List ℕ
decimal zero n = []
decimal (suc width) n = decimal width (n / 10) ++ ((0x30 + n % 10) ∷ [])

-- "Test %09lu\r\n", for a number below 10 ^ 9
unfoldable pub message : ℕ → List ℕ
message iteration =
    (0x54 ∷ 0x65 ∷ 0x73 ∷ 0x74 ∷ 0x20 ∷ []) ++ decimal 9 iteration ++ (0x0D ∷ 0x0A ∷ [])

-- What a tick does: it sends a message, or ends the program with SIGINT.
pub data Tick : Type 0 where
  write : List ℕ → Tick
  interrupt : Tick

unfoldable pub on_timer_overflow : (iteration : ℕ) → Tick × ℕ
on_timer_overflow iteration =
    if ltb iteration max_iterations
    then (write (message iteration), iteration + 1)
    else (interrupt, iteration)

-- The exit status, from the number of received bytes.
unfoldable pub is_success : Context → Bool
is_success context = context.counter == max_iterations * message_size
