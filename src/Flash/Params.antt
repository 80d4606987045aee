-- ===== src/Flash/Params.antt =====
-- What `interfaceSetParam` of flash_cfi.c does with each parameter.
use halm_examples.Base.{
  ℕ, ◌*◌, ◌/◌, ◌%◌, ◌≤◌, ◌<◌, ◌≡◌, ◌≢◌, refl, ◌⊎◌, inl, inr, arith, leb, ltb, ◌==◌, Bool-cases,
}
use halm_examples.Flash.{
  Bus, Result, ok, address, invalid, Param, flash_erase_block, flash_erase_sector, position,
  FlashCfi, erase_block, erase_sector, interface_set_param,
}
use halm_examples.Flash.Chip.{IsCfi, Erases}
use halm_examples.Flash.Transfer.{Done, done}

module _ (b : Bus) {words : ℕ} (d : IsCfi b words) where
  open b use {Chip, mdelay}

  -- An erase command at `x`: `n` words from there on are erased if `x` is inside the memory and a
  -- multiple of the unit, and else nothing happens.
  pub record Erased (unit n : ℕ) (self : FlashCfi) (x : ℕ) (c : Chip)
      (out : Result × FlashCfi × Chip) : Type 0 where
    pub accepted :
        x < self.size
        → x % unit ≡ 0
        → (out.0 ≡ ok) × (out.1 ≡ self) × d.IsReady out.2 × Erases b c out.2 (x / 2) n
    pub refused : (self.size ≤ x) ⊎ (x % unit ≢ 0) → out ≡ (address, self, c)

  pub record Moved (self : FlashCfi) (x : ℕ) (c : Chip) (out : Result × FlashCfi × Chip)
      : Type 0 where
    pub accepted : x < self.size → out ≡ (ok, record self { offset = x }, c)
    pub refused : self.size ≤ x → out ≡ (address, self, c)

  abbrev pub Outcome : FlashCfi → Param → ℕ → Chip → Result × FlashCfi × Chip → Type 0
  Outcome self flash_erase_sector x c out = Erased 4096 2048 self x c out
  Outcome self flash_erase_block x c out = Erased 65536 32768 self x c out
  Outcome self position x c out = Moved self x c out
  Outcome self _ x c out = out ≡ (invalid, self, c)

  module _ (self : FlashCfi) (c : Chip) (ready : d.IsReady c) (room : self.size ≤ 2 * words) where
    erase_sector_lem :
        (x : ℕ)
        → Done (Erased 4096 2048 self x c) (interface_set_param b self flash_erase_sector x c)
    unfolding interface_set_param erase_sector
    erase_sector_lem x = elim (Bool-cases (leb self.size x)) [
      | inl out ↦ rw out (done (record { accepted = ground arith; refused = λ h. refl }))
      | inr inside ↦ elim (Bool-cases (x % 4096 == 0)) [
        | inl fit ↦
            let lt : x < self.size = ground arith in
            let e : x % 4096 ≡ 0 = ground arith in
            let (r, s) = d.sector c x ready (omega arith) e in
            rw (inside, fit)
              (done (record { accepted = λ h k. (refl, refl, r, s); refused = ground arith }))
        | inr off ↦
            rw (inside, off) (done (record { accepted = ground arith; refused = λ h. refl }))
      ]
    ]

    erase_block_lem :
        (x : ℕ)
        → Done (Erased 65536 32768 self x c) (interface_set_param b self flash_erase_block x c)
    unfolding interface_set_param erase_block
    erase_block_lem x = elim (Bool-cases (leb self.size x)) [
      | inl out ↦ rw out (done (record { accepted = ground arith; refused = λ h. refl }))
      | inr inside ↦ elim (Bool-cases (x % 65536 == 0)) [
        | inl fit ↦
            let lt : x < self.size = ground arith in
            let e : x % 65536 ≡ 0 = ground arith in
            let (r, s) = d.block c x ready (omega arith) e in
            rw (inside, fit)
              (done (record { accepted = λ h k. (refl, refl, r, s); refused = ground arith }))
        | inr off ↦
            rw (inside, off) (done (record { accepted = ground arith; refused = λ h. refl }))
      ]
    ]

    move_lem : (x : ℕ) → Done (Moved self x c) (interface_set_param b self position x c)
    unfolding interface_set_param
    move_lem x = elim (Bool-cases (ltb x self.size)) [
      | inl inside ↦ rw inside (done (record { accepted = λ h. refl; refused = ground arith }))
      | inr out ↦ rw out (done (record { accepted = ground arith; refused = λ h. refl }))
    ]

    -- `interfaceSetParam` on every parameter, with a memory no larger than the chip: it runs to
    -- its end; an erase inside the memory at a multiple of the unit erases that unit and no other
    -- word, a position inside the memory is taken over; all else changes nothing, and says so.
    pub interface_set_param_lem :
        (p : Param) (x : ℕ) → Done (Outcome self p x c) (interface_set_param b self p x c)
    unfolding interface_set_param
    interface_set_param_lem flash_erase_sector x = erase_sector_lem x
    interface_set_param_lem flash_erase_block x = erase_block_lem x
    interface_set_param_lem position x = move_lem x
    interface_set_param_lem _ x = done refl
