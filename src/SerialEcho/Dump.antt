-- ===== src/SerialEcho/Dump.antt =====
-- The text of the received bytes: its length, and that the bytes can be read back from it.
use halm_examples.Base.{
  ℕ, ◌+◌, ◌-◌, ◌*◌, ◌/◌, ◌%◌, ◌≤◌, ◌<◌, ◌≡◌, ◌≢◌, refl, Bool, true, false, List, [], ◌∷◌, length,
  length-append, leb, ◌==◌, if◌then◌else◌, arith,
}
use halm_examples.SerialEcho.{bin_to_hex, high_digit, serialize_from, serialized, buffer_size}

-- The value of a digit.
abbrev pub hex_value : ℕ → ℕ
hex_value c = if leb c 0x39 then c - 0x30 else c - 0x37

-- The bytes of a text of pairs of digits with spaces between them.
unfoldable pub parse_bytes : List ℕ → List ℕ
parse_bytes (h ∷ l ∷ []) = (hex_value h * 16 + hex_value l) ∷ []
parse_bytes (h ∷ l ∷ _ ∷ t) = (hex_value h * 16 + hex_value l) ∷ parse_bytes t
parse_bytes _ = []

abbrev pub AreBytes : List ℕ → Type 0
AreBytes [] = Unit
AreBytes (b ∷ bs) = (b < 256) × AreBytes bs

hex_value-bin_to_hex : (v : ℕ) → v < 16 → hex_value (bin_to_hex v) ≡ v
unfolding bin_to_hex
hex_value-bin_to_hex v lt = ground arith

-- The last byte has no space behind it, the others have one.
serialize_last :
    (signed : Bool) (i len b : ℕ)
    → len ≡ i + 1
    → serialize_from signed i len (b ∷ [])
      ≡ bin_to_hex (high_digit signed b) ∷ bin_to_hex (b % 16) ∷ []
unfolding serialize_from
serialize_last signed i len b e = let same : (i == len - 1) ≡ true = ground arith in rw same refl

serialize_step :
    (signed : Bool) (i len b c : ℕ) (bs : List ℕ)
    → len ≡ i + length (b ∷ c ∷ bs)
    → serialize_from signed i len (b ∷ c ∷ bs)
      ≡ bin_to_hex (high_digit signed b)
        ∷ bin_to_hex (b % 16)
        ∷ 0x20
        ∷ serialize_from signed (i + 1) len (c ∷ bs)
unfolding serialize_from
serialize_step signed i len b c bs e =
    let other : (i == len - 1) ≡ false = ground arith in rw other refl

pub length-serialize_from :
    (signed : Bool) (i len b : ℕ) (bs : List ℕ)
    → len ≡ i + length (b ∷ bs)
    → length (serialize_from signed i len (b ∷ bs)) + 1 ≡ 3 * length (b ∷ bs)
length-serialize_from signed i len b [] e = rw (serialize_last signed i len b e) refl
length-serialize_from signed i len b (c ∷ bs) e =
    let ih = length-serialize_from signed (i + 1) len c bs (omega (arith, e)) in
    rw (serialize_step signed i len b c bs e) (omega (arith, ih))

digits_lem :
    (b : ℕ)
    → b < 256
    → hex_value (bin_to_hex (high_digit false b)) * 16 + hex_value (bin_to_hex (b % 16)) ≡ b
unfolding high_digit
digits_lem b lt =
    rw (hex_value-bin_to_hex (b / 16) (omega arith), hex_value-bin_to_hex (b % 16) (omega arith))
      (omega arith)

parse_bytes-serialize_from :
    (i len b : ℕ) (bs : List ℕ)
    → AreBytes (b ∷ bs)
    → len ≡ i + length (b ∷ bs)
    → parse_bytes (serialize_from false i len (b ∷ bs)) ≡ b ∷ bs
unfolding parse_bytes
parse_bytes-serialize_from i len b [] (lt, all) e =
    rw (serialize_last false i len b e, digits_lem b lt) refl
parse_bytes-serialize_from i len b (c ∷ bs) (lt, all) e =
    rw
      (
        serialize_step false i len b c bs e,
        digits_lem b lt,
        parse_bytes-serialize_from (i + 1) len c bs all (omega (arith, e)),
      )
      refl

-- Where `char` is unsigned, the received bytes can be read back from the digits that
-- onSerialEvent prints between the brackets.
pub parse_bytes-serialized :
    (b : ℕ) (bs : List ℕ)
    → AreBytes (b ∷ bs)
    → parse_bytes (serialize_from false 0 (length (b ∷ bs)) (b ∷ bs)) ≡ b ∷ bs
parse_bytes-serialized b bs all =
    parse_bytes-serialize_from 0 (length (b ∷ bs)) b bs all (omega arith)

-- For as many bytes as the read buffer holds, at least one, the text with the zero at its end fits
-- into the four times larger buffer of onSerialEvent, whether `char` is signed or not.
pub length-serialized :
    (signed : Bool) (b : ℕ) (bs : List ℕ)
    → length (b ∷ bs) ≤ buffer_size
    → length (serialized signed (b ∷ bs)) + 1 ≤ buffer_size * 4
unfolding serialized
length-serialized signed b bs le =
    let n = length-serialize_from signed 0 (length (b ∷ bs)) b bs (omega arith) in
    let m =
      length-append (serialize_from signed 0 (length (b ∷ bs)) (b ∷ bs))
        (0x5D ∷ 0x0D ∷ 0x0A ∷ []) in
    omega (arith, n, m, le)

-- Where `char` is signed, the first digit of a byte from 128 on is never that of its value.
pub bin_to_hex-high_digit_signed :
    (b : ℕ) → 128 ≤ b → b < 256 → bin_to_hex (high_digit true b) ≢ bin_to_hex (b / 16)
unfolding bin_to_hex high_digit
bin_to_hex-high_digit_signed b ge lt e = ground arith
