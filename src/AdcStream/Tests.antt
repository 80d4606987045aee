-- ===== src/AdcStream/Tests.antt =====
-- The callback of the ADC streams on concrete conversions.
use halm_examples.Base.{ℕ, ◌≡◌, refl, some, List, [], ◌∷◌, map, arith}
use halm_examples.AdcStream.{Request, number_text, leading, new_line, on_conversion_completed}
use halm_examples.AdcStream.Table.{table, parse_line, on_conversion_completed_lem}

-- "   70 "
number_text_test : number_text 70 ≡ 0x20 ∷ 0x20 ∷ 0x20 ∷ 0x37 ∷ 0x30 ∷ 0x20 ∷ []
unfolding number_text leading
number_text_test = refl

-- Two channels, and a byte more than two rows.
abbrev request : Request
request = record { len = 9; buffer = 70 ∷ 4095 ∷ 0 ∷ 65535 ∷ 7 ∷ [] }

on_conversion_completed_lem_example :
    (lines : List (List ℕ)) × (on_conversion_completed 2 request
      ≡ some (new_line ∷ lines, record { len = 0; buffer = request.buffer }))
    × (map (parse_line 2) lines ≡ (70 ∷ 4095 ∷ []) ∷ (0 ∷ 65535 ∷ []) ∷ [])
    × (lines ≡ table 2 2 request.buffer)
on_conversion_completed_lem_example =
    on_conversion_completed_lem 2 request (omega arith) (omega arith)
      (omega arith, (omega arith, (omega arith, (omega arith, (omega arith, tt)))))
