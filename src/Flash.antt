-- ===== src/Flash.antt =====
-- The driver of a parallel NOR flash with a CFI command set:
-- examples/lpc43xx_default/shared/flash_cfi.c and flash_cfi.h.
-- A failed assertion, and a read past the end of the caller's buffer, is `none`.
pub mod Chip
pub mod Valid
pub mod Transfer
pub mod RoundTrip
pub mod Sample
pub mod Params
mod Tests
use halm_examples.Base.{
  ℕ, zero, suc, ◌+◌, ◌/◌, ◌%◌, ◌^◌, ◌*◌, Bool, Option, none, some, List, [], ◌∷◌, ◌==◌, ltb, leb,
  if◌then◌else◌, add32, sub32,
}

-- The memory chip and the delay routines, which the driver only calls. `word c i` is what a
-- 16-bit read at index `i` of the mapped area gives.
pub record Bus : Type 1 where
  pub Chip : Type 0
  pub word : Chip → ℕ → ℕ
  pub store : ℕ → ℕ → Chip → Chip
  pub udelay : ℕ → Chip → Chip
  pub mdelay : ℕ → Chip → Chip

-- The codes of `enum Result` that the driver returns.
pub data Result : Type 0 where
  ok invalid address : Result

-- `enum FlashParameter` and `enum IfParameter`; the driver looks at these values only.
pub data Param : Type 0 where
  flash_block_size flash_sector_size flash_erase_block flash_erase_sector : Param
  position size : Param
  unsupported : ℕ → Param

abbrev pub block_size : ℕ
block_size = 65536

abbrev pub sector_size : ℕ
sector_size = 4096

-- `struct FlashCFIConfig` and `struct FlashCFI`. The address is the chip that goes along.
pub record FlashCfiConfig : Type 0 where
  pub size : ℕ

pub record FlashCfi : Type 0 where
  pub offset : ℕ
  pub size : ℕ

-- The size is stored in a `uint32_t`.
unfoldable pub interface_init : FlashCfiConfig → FlashCfi
interface_init config = record { offset = 0; size = config.size % 2 ^ 32 }

-- The number is what goes through `data`, which an error leaves alone.
unfoldable pub interface_get_param : FlashCfi → Param → Result × Option ℕ
interface_get_param self flash_block_size = (ok, some block_size)
interface_get_param self flash_sector_size = (ok, some sector_size)
interface_get_param self position = (ok, some self.offset)
interface_get_param self size = (ok, some self.size)
interface_get_param self _ = (invalid, none)

-- What `interfaceRead` and `interfaceWrite` make of the requested length and of the position:
-- the sum of the test is a 32-bit one.
unfoldable pub clamp_length : FlashCfi → ℕ → ℕ
clamp_length self length =
    if ltb self.size (add32 self.offset length) then sub32 self.size self.offset else length

unfoldable pub advance : FlashCfi → ℕ → FlashCfi
advance self length =
    let next = add32 self.offset length in
    record self { offset = if next == self.size then 0 else next }

-- The command writes of `eraseBlock` and `eraseSector`, and those of `writeWord`.
abbrev pub erase_sequence : ℕ → ℕ → List (ℕ × ℕ)
erase_sequence offset command =
    (0x5555, 0x00AA)
    ∷ (0x2AAA, 0x0055)
    ∷ (0x5555, 0x0080)
    ∷ (0x5555, 0x00AA)
    ∷ (0x2AAA, 0x0055)
    ∷ (offset / 2, command)
    ∷ []

abbrev pub program_sequence : ℕ → ℕ → List (ℕ × ℕ)
program_sequence offset value =
    (0x5555, 0x00AA) ∷ (0x2AAA, 0x0055) ∷ (0x5555, 0x00A0) ∷ (offset / 2, value) ∷ []

module _ (b : Bus) where
  open b use {Chip, word, store, udelay, mdelay}

  -- Writes through the `uint16_t` pointer, in order.
  abbrev pub stores : List (ℕ × ℕ) → Chip → Chip
  stores [] c = c
  stores ((i, v) ∷ rest) c = stores rest (store i v c)

  pub erase_block : ℕ → Chip → Option Chip
  erase_block offset c =
      if offset % block_size == 0
      then some (mdelay 25 (stores (erase_sequence offset 0x0050) c))
      else none

  pub erase_sector : ℕ → Chip → Option Chip
  erase_sector offset c =
      if offset % sector_size == 0
      then some (mdelay 25 (stores (erase_sequence offset 0x0030) c))
      else none

  pub write_word : ℕ → ℕ → Chip → Option Chip
  write_word offset value c =
      if offset % 2 == 0 then some (udelay 10 (stores (program_sequence offset value) c)) else none

  abbrev pub answer : Result → FlashCfi → Option Chip → Option (Result × FlashCfi × Chip)
  answer r self none = none
  answer r self (some c) = some (r, self, c)

  -- `value` is the number that the pointer leads to.
  pub interface_set_param : FlashCfi → Param → ℕ → Chip → Option (Result × FlashCfi × Chip)
  interface_set_param self flash_erase_block value c =
      if leb self.size value
      then some (address, self, c)
      else if value % block_size == 0
      then answer ok self (erase_block value c)
      else some (address, self, c)
  interface_set_param self flash_erase_sector value c =
      if leb self.size value
      then some (address, self, c)
      else if value % sector_size == 0
      then answer ok self (erase_sector value c)
      else some (address, self, c)
  interface_set_param self position value c =
      if ltb value self.size
      then some (ok, record self { offset = value }, c)
      else some (address, self, c)
  interface_set_param self _ value c = some (invalid, self, c)

  -- A byte of the mapped area, the lower one of a word first.
  abbrev pub byte : Chip → ℕ → ℕ
  byte c a = if a % 2 == 0 then word c (a / 2) % 256 else word c (a / 2) / 256

  -- `memcpy` out of the mapped area
  pub copy_bytes : Chip → ℕ → ℕ → List ℕ
  copy_bytes c a zero = []
  copy_bytes c a (suc n) = byte c a ∷ copy_bytes c (a + 1) n

  -- The bytes that land in the buffer, and their number.
  pub interface_read : FlashCfi → ℕ → Chip → Option (List ℕ × ℕ × FlashCfi)
  interface_read self length c =
      let n = clamp_length self length in
      if length % 2 == 0 then some (copy_bytes c self.offset n, n, advance self n) else none

  -- The loop of `interfaceWrite` with `rounds` rounds left, at the byte `offset + index`.
  pub write_words : (rounds : ℕ) → ℕ → List ℕ → Chip → Option Chip
  write_words zero a input c = some c
  write_words (suc n) a [] c = none
  write_words (suc n) a (v ∷ input) c = elim (write_word a v c) [
    | none ↦ none
    | some c' ↦ write_words n (add32 a 2) input c'
  ]

  -- The buffer is given as the 16-bit words that the driver reads from it.
  pub interface_write : FlashCfi → ℕ → List ℕ → Chip → Option (ℕ × FlashCfi × Chip)
  interface_write self length input c =
      let n = clamp_length self length in
      if length % 2 == 0
      then elim (write_words ((n + 1) / 2) self.offset input c) [
        | none ↦ none
        | some c' ↦ some (n, advance self n, c')
      ]
      else none
