-- ===== src/Flash/Valid.antt =====
-- The position of flash_cfi.c stays inside the memory, and transfers are cut at its end.
use halm_examples.Base.{
  ℕ, ◌+◌, ◌-◌, ◌^◌, ◌≤◌, ◌<◌, ◌≡◌, ◌≢◌, none, some, arith, min, ◌==◌, zero, suc, length, List, ap,
  get_or, ◌∙◌, refl, ◌%◌, if◌then◌else◌,
}
use halm_examples.Flash.{
  Bus, Result, Param, FlashCfi, FlashCfiConfig, interface_init, clamp_length, advance,
  interface_set_param, interface_read, copy_bytes, byte, erase_block, erase_sector,
  flash_erase_block, flash_erase_sector, position,
}

pub record IsValid (self : FlashCfi) : Type 0 where
  pub inside : self.offset < self.size
  pub small : self.size < 2 ^ 32

-- A configuration of a size that fits the field gives a valid driver.
pub init-IsValid :
    (config : FlashCfiConfig)
    → 0 < config.size
    → config.size < 2 ^ 32
    → IsValid (interface_init config) × ((interface_init config).size ≡ config.size)
unfolding interface_init
init-IsValid config h k = omega arith

module _ (self : FlashCfi) (v : IsValid self) (length : ℕ)
    (fits : self.offset + length < 2 ^ 32) where
  pub clamp_length_lem : clamp_length self length ≡ min length (self.size - self.offset)
  unfolding clamp_length
  clamp_length_lem = ground arith

module _ (self : FlashCfi) (v : IsValid self) (n : ℕ) (room : self.offset + n ≤ self.size) where
  pub advance-IsValid :
      IsValid (advance self n)
      × ((advance self n).size ≡ self.size)
      × ((advance self n).offset ≡ (if self.offset + n == self.size then 0 else self.offset + n))
  unfolding advance
  advance-IsValid = ground arith

module _ (b : Bus) where
  open b use {Chip}

  -- Whatever it is asked, `interfaceSetParam` keeps the position inside and the size as it is.
  pub interface_set_param-IsValid :
      (self : FlashCfi) (p : Param) (x : ℕ) (c : Chip) {r : Result} {self' : FlashCfi} {c' : Chip}
      → IsValid self
      → interface_set_param b self p x c ≡ some (r, self', c')
      → IsValid self' × (self'.size ≡ self.size)
  unfolding interface_set_param
  interface_set_param-IsValid self flash_erase_block x c v e = ground arith
  interface_set_param-IsValid self flash_erase_sector x c v e = ground arith
  interface_set_param-IsValid self position x c v e = ground arith
  interface_set_param-IsValid self _ x c v e = ground arith

  -- `interfaceSetParam` never fails an assertion.
  pub interface_set_param_total :
      (self : FlashCfi) (p : Param) (x : ℕ) (c : Chip) → interface_set_param b self p x c ≢ none
  unfolding interface_set_param erase_block erase_sector
  interface_set_param_total self flash_erase_block x c = ground arith
  interface_set_param_total self flash_erase_sector x c = ground arith
  interface_set_param_total self position x c = ground arith
  interface_set_param_total self _ x c = ground arith

  length-copy_bytes : (c : Chip) (a n : ℕ) → length (copy_bytes b c a n) ≡ n
  unfolding copy_bytes
  length-copy_bytes c a zero = refl
  length-copy_bytes c a (suc n) = ap suc (length-copy_bytes c (a + 1) n)

  get_or-copy_bytes :
      (c : Chip) (a n i : ℕ) → i < n → get_or (copy_bytes b c a n) i 0 ≡ byte b c (a + i)
  unfolding copy_bytes
  get_or-copy_bytes c a zero i lt = absurd (omega (arith, lt))
  get_or-copy_bytes c a (suc n) zero lt = let e : a ≡ a + 0 = omega arith in ap (byte b c) e
  get_or-copy_bytes c a (suc n) (suc i) lt =
      let e : a + 1 + i ≡ a + suc i = omega arith in
      get_or-copy_bytes c (a + 1) n i (omega (arith, lt)) ∙ ap (byte b c) e

  -- From a valid position, a read of an even length that does not wrap 32 bits gives the
  -- bytes of the memory from the position on, none from behind its end, and their number, which is
  -- the length asked for or what is left of the memory, and leaves a valid position: behind the
  -- bytes, or at 0 when they reach the end.
  pub interface_read-IsValid :
      (self : FlashCfi) (length' : ℕ) (c : Chip)
      → IsValid self
      → length' % 2 ≡ 0
      → self.offset + length' < 2 ^ 32
      → let n = min length' (self.size - self.offset) in
        (buffer : List ℕ) × (self' : FlashCfi) × (interface_read b self length' c
          ≡ some (buffer, n, self'))
        × (length buffer ≡ n)
        × ((i : ℕ) → i < n → get_or buffer i 0 ≡ byte b c (self.offset + i))
        × (self.offset + n ≤ self.size)
        × IsValid self'
        × (self'.offset ≡ (if self.offset + n == self.size then 0 else self.offset + n))
  unfolding interface_read
  interface_read-IsValid self length' c v even fits =
      let n = min length' (self.size - self.offset) in
      let inside = v.inside in
      let (valid, _, at) = advance-IsValid self v n (omega arith) in
      (
        copy_bytes b c self.offset n,
        advance self n,
        rw (even, clamp_length_lem self v length' fits),
        length-copy_bytes c self.offset n,
        get_or-copy_bytes c self.offset n,
        omega arith,
        valid,
        at,
      )

  -- The test for the end of the memory wraps: a read whose end wraps to a place inside the memory
  -- is not cut, and copies bytes from behind the end.
  pub interface_read_overrun :
      (self : FlashCfi) (length' : ℕ) (c : Chip)
      → IsValid self
      → length' < 2 ^ 32
      → length' % 2 ≡ 0
      → 2 ^ 32 ≤ self.offset + length'
      → (self.size < self.offset + length')
        × (interface_read b self length' c
            ≡ some (copy_bytes b c self.offset length', length', advance self length'))
  unfolding interface_read clamp_length
  interface_read_overrun self length' c v lt even wraps =
      let small = v.small in
      let inside = v.inside in
      let e : clamp_length self length' ≡ length' = ground arith in (omega arith, rw (even, e))
