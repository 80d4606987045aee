-- ===== src/AdcStream/Table.antt =====
-- The output of onConversionCompleted as a table of its values.
use native.Mathlib.Nat.{div-mul-le_self}
use halm_examples.Base.{
  ℕ, zero, suc, ◌+◌, ◌-◌, ◌*◌, ◌/◌, ◌%◌, ◌^◌, ◌≤◌, ◌<◌, ◌≡◌, refl, sym, ap, ap₂, ◌∙◌, map,
  if◌then◌else◌, true, false, some, List, [], ◌∷◌, ◌++◌, length, length-append, length-drop,
  length-take, take, drop, leb, ◌==◌, arith,
}
use halm_examples.AdcStream.{
  Request, number_text, leading, new_line, row, rows, on_conversion_completed,
}

-- The values of a row, one after the other.
unfoldable pub line : List ℕ → List ℕ
line [] = new_line
line (value ∷ values) = number_text value ++ line values

-- The first rows of the memory.
unfoldable pub table : (chunks count : ℕ) → List ℕ → List (List ℕ)
table zero count buffer = []
table (suc chunks) count buffer = line (take count buffer) ∷ table chunks count (drop count buffer)

length-leading : (width n : ℕ) → length (leading width n) ≡ width
unfolding leading
length-leading zero n = refl
length-leading (suc width) n =
    length-append (leading width (n / 10)) _ ∙ omega (arith, length-leading width (n / 10))

length-number_text : (n : ℕ) → length (number_text n) ≡ 6
unfolding number_text
length-number_text n =
    length-append (leading 4 (n / 10)) _ ∙ omega (arith, length-leading 4 (n / 10))

length-line : (values : List ℕ) → length (line values) ≡ length values * 6 + 2
unfolding line
length-line [] = omega arith
length-line (value ∷ values) =
    length-append (number_text value) (line values)
    ∙ omega (arith, length-number_text value, length-line values)

row_lem :
    (count : ℕ) (buffer : List ℕ)
    → count ≤ length buffer
    → row count buffer ≡ some (line (take count buffer), drop count buffer)
unfolding row line
row_lem zero buffer le = refl
row_lem (suc count) [] le = absurd (omega (arith, le))
row_lem (suc count) (value ∷ buffer) le = rw (row_lem count buffer (omega (arith, le))) refl

rows_lem :
    (chunks count : ℕ) (buffer : List ℕ)
    → chunks * count ≤ length buffer
    → rows chunks count buffer ≡ some (table chunks count buffer)
unfolding rows table
rows_lem zero count buffer le = refl
rows_lem (suc chunks) count buffer le =
    let here : count ≤ length buffer = grind arith in
    let ih =
      rows_lem chunks count (drop count buffer) (rw (length-drop count buffer) (grind arith)) in
    let size = length-line (take count buffer) ∙ ap (λ n. n * 6 + 2) (length-take count buffer) in
    let fits : leb (length (line (take count buffer)) + 1) (count * 6 + 3) ≡ true =
      ground (arith, size) in
    rw (row_lem count buffer here, ih, fits) refl

-- What a reader makes of a number in decimal digits, with spaces around it.
abbrev value : ℕ → List ℕ → ℕ
value acc [] = acc
value acc (c ∷ cs) = value (if c == 0x20 then acc else acc * 10 + (c - 0x30)) cs

-- The first `count` fields of six characters, read back.
abbrev pub parse_line : (count : ℕ) → List ℕ → List ℕ
parse_line zero text = []
parse_line (suc count) text = value 0 (take 6 text) ∷ parse_line count (drop 6 text)

-- The conversions of the first rows.
abbrev pub groups : (chunks count : ℕ) → List ℕ → List (List ℕ)
groups zero count buffer = []
groups (suc chunks) count buffer = take count buffer ∷ groups chunks count (drop count buffer)

-- Words of 16 bits.
abbrev pub AreWords : List ℕ → Type 0
AreWords [] = Unit
AreWords (x ∷ xs) = (x < 2 ^ 16) × AreWords xs

drop-AreWords : (n : ℕ) (xs : List ℕ) → AreWords xs → AreWords (drop n xs)
drop-AreWords zero xs h = h
drop-AreWords (suc n) [] h = h
drop-AreWords (suc n) (x ∷ xs) h = drop-AreWords n xs h.1

value-append : (acc : ℕ) (xs ys : List ℕ) → value acc (xs ++ ys) ≡ value (value acc xs) ys
value-append acc [] ys = refl
value-append acc (x ∷ xs) ys = value-append (if x == 0x20 then acc else acc * 10 + (x - 0x30)) xs ys

abbrev tens : ℕ → ℕ
tens zero = 1
tens (suc width) = 10 * tens width

value-leading : (width n : ℕ) → n < tens width → value 0 (leading width n) ≡ n
unfolding leading
value-leading zero n lt = omega (arith, lt)
value-leading (suc width) n lt =
    let ih = value-leading width (n / 10) (omega (arith, lt)) in
    value-append 0 (leading width (n / 10)) ((if n == 0 then 0x20 else 0x30 + n % 10) ∷ [])
    ∙ ground (arith, ih)

value-number_text : (n : ℕ) → n < 2 ^ 16 → value 0 (number_text n) ≡ n
unfolding number_text
value-number_text n lt =
    let ih = value-leading 4 (n / 10) (omega (arith, lt)) in
    value-append 0 (leading 4 (n / 10)) ((0x30 + n % 10) ∷ 0x20 ∷ []) ∙ ground (arith, ih)

take-append : (xs ys : List ℕ) → take (length xs) (xs ++ ys) ≡ xs
take-append [] ys = refl
take-append (x ∷ xs) ys = ap (λ (l : List ℕ). x ∷ l) (take-append xs ys)

drop-append : (xs ys : List ℕ) → drop (length xs) (xs ++ ys) ≡ ys
drop-append [] ys = refl
drop-append (x ∷ xs) ys = drop-append xs ys

parse_line-line :
    (count : ℕ) (buffer : List ℕ)
    → count ≤ length buffer
    → AreWords buffer
    → parse_line count (line (take count buffer)) ≡ take count buffer
unfolding line
parse_line-line zero buffer le h = refl
parse_line-line (suc count) [] le h = absurd (omega (arith, le))
parse_line-line (suc count) (x ∷ buffer) le h =
    let rest = line (take count buffer) in
    let size = length-number_text x in
    let first : take 6 (number_text x ++ rest) ≡ number_text x =
      ap (λ n. take n (number_text x ++ rest)) (sym size) ∙ take-append (number_text x) rest in
    let then_rest : drop 6 (number_text x ++ rest) ≡ rest =
      ap (λ n. drop n (number_text x ++ rest)) (sym size) ∙ drop-append (number_text x) rest in
    ap₂ (λ (y : ℕ) (l : List ℕ). y ∷ l) (ap (value 0) first ∙ value-number_text x h.0)
      (ap (parse_line count) then_rest ∙ parse_line-line count buffer (omega (arith, le)) h.1)

table_lem :
    (chunks count : ℕ) (buffer : List ℕ)
    → chunks * count ≤ length buffer
    → AreWords buffer
    → map (parse_line count) (table chunks count buffer) ≡ groups chunks count buffer
unfolding table
table_lem zero count buffer le h = refl
table_lem (suc chunks) count buffer le h =
    let here : count ≤ length buffer = grind arith in
    ap₂ (λ (y : List ℕ) (l : List (List ℕ)). y ∷ l) (parse_line-line count buffer here h)
      (table_lem chunks count (drop count buffer) (rw (length-drop count buffer) (grind arith))
        (drop-AreWords count buffer h))

-- For at least one input and a request that lies in a memory of 16-bit words, onConversionCompleted
-- stays in the memory and in its text. It prints a new line and one line for each whole group of
-- conversions; read back as decimal numbers in fields of six characters, the lines are the groups
-- in their order. It queues the request again as an empty one.
pub on_conversion_completed_lem :
    (count : ℕ) (request : Request)
    → 0 < count
    → request.len ≤ 2 * length request.buffer
    → AreWords request.buffer
    → let chunks = request.len / 2 / count in
      (lines : List (List ℕ)) × (on_conversion_completed count request
        ≡ some (new_line ∷ lines, record { len = 0; buffer = request.buffer }))
      × (map (parse_line count) lines ≡ groups chunks count request.buffer)
      × (lines ≡ table chunks count request.buffer)
unfolding on_conversion_completed
on_conversion_completed_lem count request pos le words =
    let chunks = request.len / 2 / count in
    let some' : (count == 0) ≡ false = ground arith in
    let whole = div-mul-le_self (request.len / 2) count in
    let inside : chunks * count ≤ length request.buffer = omega (arith, whole, le) in
    (
      table chunks count request.buffer,
      rw (some', rows_lem chunks count request.buffer inside) refl,
      table_lem chunks count request.buffer inside words,
      refl,
    )
