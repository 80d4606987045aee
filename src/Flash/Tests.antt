-- ===== src/Flash/Tests.antt =====
-- Runs of the driver on the sample chip, and its theorems at concrete inputs.
use halm_examples.Base.{
  ℕ, ◌+◌, ◌-◌, ◌^◌, ◌≤◌, ◌<◌, ◌≡◌, refl, Option, none, some, List, [], ◌∷◌, arith, length, get_or,
}
use halm_examples.Flash.{
  FlashCfi, flash_erase_sector, position, interface_set_param, interface_read, interface_write,
  byte, copy_bytes, write_words, write_word, advance, clamp_length,
}
use halm_examples.Flash.Sample.{Model, Phase, bus, conforming, blank, used}
use halm_examples.Flash.Valid.{
  IsValid, interface_set_param-IsValid, interface_read-IsValid, interface_read_overrun,
}
use halm_examples.Flash.Transfer.{Done, bytes, Stored, interface_write_lem}
use halm_examples.Flash.RoundTrip.{rewound, read-write}
use halm_examples.Flash.Params.{Outcome, interface_set_param_lem}

-- 4 KiB, two words before the end
abbrev near_end : FlashCfi
near_end = record { offset = 4092; size = 4096 }

abbrev start : FlashCfi
start = record { offset = 64; size = 4096 }

abbrev count_of : Option (ℕ × FlashCfi × Model) → ℕ × ℕ
count_of none = (0, 0)
count_of (some (n, self, c)) = (n, self.offset)

write_cut : count_of (interface_write bus near_end 6 (1 ∷ 2 ∷ 3 ∷ []) blank) ≡ (4, 0)
unfolding interface_write clamp_length write_words write_word advance
write_cut = refl

interface_write_lem_example :
    Done
      (Stored bus (conforming 2048) near_end (1 ∷ 2 ∷ 3 ∷ []) blank)
      (interface_write bus near_end 6 (1 ∷ 2 ∷ 3 ∷ []) blank)
interface_write_lem_example =
    interface_write_lem bus (conforming 2048) near_end (omega arith) blank refl (1 ∷ 2 ∷ 3 ∷ [])
      refl refl (omega arith) (omega arith) (omega arith, (omega arith, (omega arith, tt)))
      (λ j lo hi. refl)

read-write_example :
    Done
      (λ out.
        (out.0 ≡ 4)
        × (out.2.phase ≡ Phase.read)
        × (interface_read bus (rewound start out.1) 4 out.2
            ≡ some (bytes (0x1234 ∷ 0xFEDC ∷ []), 4, out.1)))
      (interface_write bus start 4 (0x1234 ∷ 0xFEDC ∷ []) blank)
read-write_example =
    read-write bus (conforming 2048) start (omega arith) blank refl (0x1234 ∷ 0xFEDC ∷ []) refl refl
      (omega arith) (omega arith) (omega arith, (omega arith, tt)) (λ j lo hi. refl)

interface_set_param_lem_example :
    Done
      (Outcome bus
        (conforming 4096)
        (record { offset = 0; size = 8192 })
        flash_erase_sector
        4096
        used)
      (interface_set_param bus (record { offset = 0; size = 8192 }) flash_erase_sector 4096 used)
interface_set_param_lem_example =
    interface_set_param_lem bus (conforming 4096) (record { offset = 0; size = 8192 }) used refl
      (omega arith) flash_erase_sector 4096

interface_set_param-IsValid_example :
    IsValid (record { offset = 96; size = 4096 }) × (◌≡◌ {A = ℕ} 4096 4096)
unfolding interface_set_param
interface_set_param-IsValid_example =
    interface_set_param-IsValid bus start position 96 used (omega arith) refl

interface_read-IsValid_example :
    (buffer : List ℕ) × (self' : FlashCfi) × (interface_read bus near_end 16 used
      ≡ some (buffer, 4, self'))
    × (length buffer ≡ 4)
    × ((i : ℕ) → i < 4 → get_or buffer i 0 ≡ byte bus used (4092 + i))
    × (4092 + 4 ≤ 4096)
    × IsValid self'
    × (self'.offset ≡ 0)
interface_read-IsValid_example =
    interface_read-IsValid bus near_end 16 used (omega arith) refl (omega arith)

interface_read_overrun_example :
    (4096 < 4092 + (2 ^ 32 - 4092))
    × (interface_read bus near_end (2 ^ 32 - 4092) used
        ≡ some (
          copy_bytes bus used 4092 (2 ^ 32 - 4092),
          2 ^ 32 - 4092,
          advance near_end (2 ^ 32 - 4092),
        ))
interface_read_overrun_example =
    interface_read_overrun bus near_end (2 ^ 32 - 4092) used (omega arith) (omega arith) refl
      (omega arith)
