-- ===== src/EmcFlash.antt =====
-- The test program of the external flash: examples/lpc43xx_default/emc_flash/main.c. The calls
-- `ifSetParam`, `ifGetParam`, `ifRead` and `ifWrite` are those of the driver in flash_cfi.c.
pub mod Correct
pub mod Sequence
mod Tests
use halm_examples.Base.{
  ◌>>=◌, ℕ, zero, suc, ◌+◌, ◌*◌, ◌/◌, ◌%◌, ◌^◌, Bool, true, false, not, ◌&&◌, ◌||◌, Option, none,
  some, List, [], ◌∷◌, min, ◌==◌, if◌then◌else◌, get_or, add32,
}
use halm_examples.Flash.{
  Bus, Result, ok, Param, position, size, flash_sector_size, flash_block_size, flash_erase_sector,
  flash_erase_block, FlashCfi, FlashCfiConfig, interface_init, interface_get_param,
  interface_set_param, interface_read, interface_write,
}

abbrev pub buffer_size : ℕ
buffer_size = 2048

abbrev pub memory_capacity : ℕ
memory_capacity = 2 * 1024 * 1024

abbrev pub memory_offset : ℕ
memory_offset = 64 * 1024

abbrev pub is_ok : Result → Bool
is_ok ok = true
is_ok _ = false

abbrev pub stored : Option ℕ → ℕ
stored none = 0
stored (some n) = n

-- `buffer[i] = (uint32_t)i` from `i` on, as the 16-bit words in memory
unfoldable pub pattern : ℕ → ℕ → List ℕ
pattern i zero = []
pattern i (suc n) = i % 65536 ∷ i / 65536 % 65536 ∷ pattern (i + 1) n

-- The `uint32_t` values of a buffer of bytes.
abbrev pub decode : List ℕ → List ℕ
decode (b₀ ∷ b₁ ∷ b₂ ∷ b₃ ∷ rest) = (b₀ + 256 * b₁ + 65536 * b₂ + 16777216 * b₃) ∷ decode rest
decode _ = []

-- The loop `buffer[i] != (uint32_t)i` of `verify`.
abbrev pub counts_from : ℕ → List ℕ → Bool
counts_from i [] = true
counts_from i (x ∷ xs) = (x == i % 2 ^ 32) && counts_from (i + 1) xs

module _ (b : Bus) where
  open b use {Chip}

  abbrev pub Outcome : Type 0
  Outcome = Option (Bool × FlashCfi × Chip)

  pub program : FlashCfi → ℕ → ℕ → Chip → Outcome
  program self address length c = do
    (r, self₁, c₁) ← interface_set_param b self position address c
    if not (is_ok r) then some (false, self₁, c₁) else do
      (n, self₂, c₂) ← interface_write b self₁ (4 * (length / 4)) (pattern 0 (length / 4)) c₁
      let (r', next) = interface_get_param self₂ position
      some (
        (n == 4 * (length / 4)) && is_ok r' && (stored next == add32 address (4 * (length / 4))),
        self₂,
        c₂,
      )

  pub verify : FlashCfi → ℕ → ℕ → Chip → Outcome
  verify self address length c = do
    (r, self₁, c₁) ← interface_set_param b self position address c
    if not (is_ok r) then some (false, self₁, c₁) else do
      (buffer, n, self₂) ← interface_read b self₁ (4 * (length / 4)) c₁
      let (r', next) = interface_get_param self₂ position
      some (
        (n == 4 * (length / 4))
            && is_ok r'
            && (stored next == add32 address (4 * (length / 4)))
            && counts_from 0 (decode buffer),
        self₂,
        c₁,
      )

  unfoldable pub memory_test_sequence : FlashCfi → Param → Param → Chip → Outcome
  memory_test_sequence self param_size param_erase c =
      let (r, capacity) = interface_get_param self size in
      if not (is_ok r) || (stored capacity == 0)
      then some (false, self, c)
      else let (r', chunk) = interface_get_param self param_size in
        if not (is_ok r') then some (true, self, c) else do
          let length = min buffer_size (stored chunk)
          (r'', self₁, c₁) ← interface_set_param b self param_erase memory_offset c
          if not (is_ok r'') then some (false, self₁, c₁) else do
            (done, self₂, c₂) ← program self₁ memory_offset length c₁
            if not done then some (false, self₂, c₂) else verify self₂ memory_offset length c₂

  -- What `main` does with the memory; the result is whether the LED has been switched on.
  unfoldable pub main : Chip → Outcome
  main c = do
    let flash = interface_init (record { size = memory_capacity })
    (sector_test, flash₁, c₁) ← memory_test_sequence flash flash_sector_size flash_erase_sector c
    (block_test, flash₂, c₂) ← memory_test_sequence flash₁ flash_block_size flash_erase_block c₁
    some (not sector_test || not block_test, flash₂, c₂)
