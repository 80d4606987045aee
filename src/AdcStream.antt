-- ===== src/AdcStream.antt =====
-- The callback onConversionCompleted of the files examples/*/adc_dma_stream/main.c, which prints the
-- conversions of a request in rows and queues the request again. Characters are their codes.
pub mod Table
mod Tests
use halm_examples.Base.{
  ◌>>=◌, ℕ, zero, suc, ◌+◌, ◌*◌, ◌/◌, ◌%◌, Bool, true, false, Option, none, some, List, [], ◌∷◌,
  ◌++◌, length, leb, ◌==◌, if◌then◌else◌,
}

-- `len` counts bytes; `buffer` is the memory from the start of the request on, in words of 16 bits.
pub record Request : Type 0 where
  pub len : ℕ
  pub buffer : List ℕ

-- The digits before the last one, with spaces for leading zeros.
unfoldable pub leading : (width n : ℕ) → List ℕ
leading zero n = []
leading (suc width) n = leading width (n / 10) ++ ((if n == 0 then 0x20 else 0x30 + n % 10) ∷ [])

-- "%5u ", for a number below 10 ^ 5
unfoldable pub number_text : ℕ → List ℕ
number_text n = leading 4 (n / 10) ++ ((0x30 + n % 10) ∷ 0x20 ∷ [])

abbrev pub new_line : List ℕ
new_line = 0x0D ∷ 0x0A ∷ []

-- The inner loop with the end of the row: the text, and the rest of the memory.
unfoldable pub row : (count : ℕ) → List ℕ → Option (List ℕ × List ℕ)
row zero buffer = some (new_line, buffer)
row (suc count) [] = none
row (suc count) (value ∷ buffer) = do
  (text, rest) ← row count buffer
  some (number_text value ++ text, rest)

-- The outer loop. The text with the zero at its end must fit into `char text[count * 6 + 3]`.
unfoldable pub rows : (chunks count : ℕ) → List ℕ → Option (List (List ℕ))
rows zero count buffer = some []
rows (suc chunks) count buffer = do
  (text, rest) ← row count buffer
  texts ← rows chunks count rest
  if leb (length text + 1) (count * 6 + 3) then some (text ∷ texts) else none

-- What is written to the serial port, and the request that is queued.
unfoldable pub on_conversion_completed : (count : ℕ) → Request → Option (List (List ℕ) × Request)
on_conversion_completed count request = if count == 0 then none else do
  texts ← rows (request.len / 2 / count) count request.buffer
  some (new_line ∷ texts, record { len = 0; buffer = request.buffer })
