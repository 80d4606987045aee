-- ===== src/Flash/Chip.antt =====
-- What the data sheet of the chip promises of the command sequences that flash_cfi.c sends: an
-- assumption of the theorems about the driver.
use halm_examples.Base.{ℕ, ◌+◌, ◌%◌, ◌/◌, ◌^◌, ◌≤◌, ◌<◌, ◌≡◌, ◌≢◌, ◌⊎◌}
use halm_examples.Flash.{Bus, stores, erase_sequence, program_sequence}

module _ (b : Bus) where
  open b use {Chip, word, udelay, mdelay}

  -- An erased word takes the value programmed, and no other word changes.
  pub record Programs (c c' : Chip) (i v : ℕ) : Type 0 where
    pub target : word c i ≡ 0xFFFF → word c' i ≡ v
    pub other : (j : ℕ) → j ≢ i → word c' j ≡ word c j

  -- The `n` words from index `i` on are erased, and no other word changes.
  pub record Erases (c c' : Chip) (i n : ℕ) : Type 0 where
    pub target : (j : ℕ) → i ≤ j → j < i + n → word c' j ≡ 0xFFFF
    pub other : (j : ℕ) → (j < i) ⊎ (i + n ≤ j) → word c' j ≡ word c j

  -- A chip of `words` words. It is ready when it is in read mode, and each sequence, with the
  -- delay that follows it in the source, leaves it so.
  pub record IsCfi (words : ℕ) : Type 1 where
    pub IsReady : Chip → Type 0
    pub word_lt : (c : Chip) (i : ℕ) → word c i < 2 ^ 16
    pub program :
        (c : Chip) (a v : ℕ)
        → IsReady c
        → a / 2 < words
        → v < 2 ^ 16
        → let c' = udelay 10 (stores b (program_sequence a v) c) in
          IsReady c' × Programs c c' (a / 2) v
    pub sector :
        (c : Chip) (a : ℕ)
        → IsReady c
        → a / 2 < words
        → a % 4096 ≡ 0
        → let c' = mdelay 25 (stores b (erase_sequence a 0x0030) c) in
          IsReady c' × Erases c c' (a / 2) 2048
    pub block :
        (c : Chip) (a : ℕ)
        → IsReady c
        → a / 2 < words
        → a % 65536 ≡ 0
        → let c' = mdelay 25 (stores b (erase_sequence a 0x0050) c) in
          IsReady c' × Erases c c' (a / 2) 32768
