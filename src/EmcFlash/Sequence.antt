-- ===== src/EmcFlash/Sequence.antt =====
-- `memoryTestSequence` and `main` of emc_flash/main.c.
use halm_examples.Base.{
  ◌>>=◌, ℕ, ◌+◌, ◌*◌, ◌/◌, ◌%◌, ◌≤◌, ◌<◌, ◌≡◌, ◌∙◌, refl, ◌⊎◌, Bool, true, false, not, some, arith,
  ◌==◌, if◌then◌else◌,
}
use halm_examples.Flash.{
  Bus, flash_sector_size, flash_block_size, flash_erase_sector, flash_erase_block, FlashCfi,
  interface_init, interface_get_param,
}
use halm_examples.Flash.Chip.{IsCfi, Erases}
use halm_examples.Flash.Valid.{IsValid}
use halm_examples.Flash.Transfer.{Holds, Done, done, mono}
use halm_examples.Flash.Params.{interface_set_param_lem}
use halm_examples.EmcFlash.{
  memory_offset, memory_capacity, pattern, program, verify, memory_test_sequence, main,
}
use halm_examples.EmcFlash.Correct.{at, bind, program_lem, verify_lem}

module _ (b : Bus) {words : ℕ} (d : IsCfi b words) where
  open b use {Chip, word}

  -- A test that erases `unit` words passes: the numbers 0, 1, … stand in the first 2048 bytes of
  -- the tested unit, no word outside the unit has changed, and the position is behind the data.
  pub record Passed (unit : ℕ) (self : FlashCfi) (c : Chip) (out : Bool × FlashCfi × Chip)
      : Type 0 where
    pub success : out.0 ≡ true
    pub moved : out.1 ≡ at b d self (memory_offset + 2048)
    pub ready : d.IsReady out.2
    pub holds : Holds b out.2 (memory_offset / 2) (pattern 0 512)
    pub same :
        (j : ℕ) → (j < memory_offset / 2) ⊎ (memory_offset / 2 + unit ≤ j) → word out.2 j ≡ word c j

  module _ (self : FlashCfi) (v : IsValid self) (even_size : self.size % 2 ≡ 0)
      (room : self.size ≤ 2 * words) (inside : memory_offset + 2048 < self.size) where
    after_erase :
        (unit : ℕ) (c c₁ : Chip)
        → 1024 ≤ unit
        → d.IsReady c₁
        → Erases b c c₁ (memory_offset / 2) unit
        → Done (Passed unit self c) (
            program b self memory_offset 2048 c₁ >>= λ (success, self₂, c₂).
            if not success then some (false, self₂, c₂) else verify b self₂ memory_offset 2048 c₂)
    after_erase unit c c₁ wide ready e' =
        bind
          (program_lem b d self v even_size room memory_offset 2048 refl inside c₁ ready
            (λ j lo hi. e'.target j lo (omega arith)))
          λ out p.
            let small = v.small in
            let at_end : IsValid (at b d self (memory_offset + 2048)) = omega arith in
            rw (p.success, p.next)
              (mono
                (verify_lem b d (at b d self (memory_offset + 2048)) at_end even_size room
                  memory_offset 2048 refl inside out.2 p.ready p.holds)
                λ done e. rw e (record {
                  success = refl;
                  moved = refl;
                  ready = p.ready;
                  holds = p.holds;
                  same = λ j far. p.same j (omega arith) ∙ e'.other j far;
                }))

    sector_test_lem :
        (c : Chip)
        → d.IsReady c
        → Done
            (Passed 2048 self c)
            (memory_test_sequence b self flash_sector_size flash_erase_sector c)
    unfolding memory_test_sequence interface_get_param
    sector_test_lem c ready =
        let t : (self.size == 0) ≡ false = ground arith in
        rw t (
          bind (interface_set_param_lem b d self c ready room flash_erase_sector memory_offset)
            λ out e.
              let (k, same, r, erases) = e.accepted (omega arith) refl in
              rw (k, same) (after_erase 2048 c out.2 (omega arith) r erases))

    block_test_lem :
        (c : Chip)
        → d.IsReady c
        → Done
            (Passed 32768 self c)
            (memory_test_sequence b self flash_block_size flash_erase_block c)
    unfolding memory_test_sequence interface_get_param
    block_test_lem c ready =
        let t : (self.size == 0) ≡ false = ground arith in
        rw t (
          bind (interface_set_param_lem b d self c ready room flash_erase_block memory_offset)
            λ out e.
              let (k, same, r, erases) = e.accepted (omega arith) refl in
              rw (k, same) (after_erase 32768 c out.2 (omega arith) r erases))

  -- The program's own run, on a ready chip of at least 2 MiB: the LED stays off, since both tests
  -- pass, and no word outside the block at 64 KiB has changed.
  pub main_lem :
      (c : Chip)
      → d.IsReady c
      → memory_capacity ≤ 2 * words
      → Done
          (λ out.
            (out.0 ≡ false)
            × d.IsReady out.2
            × Holds b out.2 (memory_offset / 2) (pattern 0 512)
            × ((j : ℕ)
                → (j < memory_offset / 2) ⊎ (memory_offset / 2 + 32768 ≤ j)
                → word out.2 j ≡ word c j))
          (main b c)
  unfolding main interface_init
  main_lem c ready room =
      let flash = interface_init (record { size = memory_capacity }) in
      bind (sector_test_lem flash (omega arith) refl room (omega arith) c ready) λ out p.
        rw (p.success, p.moved)
          (bind
            (block_test_lem (at b d flash (memory_offset + 2048)) (omega arith) refl room
              (omega arith) out.2 p.ready)
            λ out' q.
              rw q.success
                (done (refl, q.ready, q.holds, λ j far. q.same j far ∙ p.same j (omega arith))))
