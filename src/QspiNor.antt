-- ===== src/QspiNor.antt =====
-- The program examples/m48x_default/qspi_nor/main.c, which asks a serial flash for its identifiers
-- over one, two and four wires.
pub mod Identify
mod Tests
use halm_examples.Base.{ℕ, Bool, true, false, not, ◌&&◌, ◌||◌, List, [], ◌∷◌, ◌==◌, if◌then◌else◌}

-- The settings IF_QSPI_SERIAL, IF_QSPI_DUAL and IF_QSPI_QUAD.
pub data Mode : Type 0 where
  serial dual quad : Mode

-- The interface and the pin that selects the chip, with the chip behind them. `read` gives the bytes
-- that have been received.
pub record Bus : Type 1 where
  pub Hw : Type 0
  pub pin_reset : Hw → Hw
  pub pin_set : Hw → Hw
  pub set_mode : Mode → Hw → Hw
  pub write : List ℕ → Hw → Hw
  pub read : (count : ℕ) → Hw → List ℕ × Hw

pub record DeviceInfo : Type 0 where
  pub manufacturer : ℕ
  pub device : ℕ

unfoldable pub is_correct_capacity : ℕ → Bool
is_correct_capacity value = value == 0x15 || value == 0x16 || value == 0x17 || value == 0x18

unfoldable pub is_correct_manufacturer : ℕ → Bool
is_correct_manufacturer value = value == 0xEF

-- `info` before the read holds what was on the stack.
unfoldable pub fill : List ℕ → DeviceInfo → DeviceInfo
fill [] info = info
fill (m ∷ []) info = record info { manufacturer = m }
fill (m ∷ d ∷ rest) info = record { manufacturer = m; device = d }

abbrev pub address : List ℕ
address = 0 ∷ 0 ∷ 0 ∷ []

module _ (b : Bus) where
  open b use {Hw, pin_reset, pin_set, set_mode, write, read}

  unfoldable pub read_device_info : (stack : DeviceInfo) → Hw → DeviceInfo × Hw
  read_device_info stack h =
      let h₁ = set_mode serial (pin_reset h) in
      let h₂ = write address (write (0x90 ∷ []) h₁) in
      let (bytes, h₃) = read 2 h₂ in (fill bytes stack, pin_set h₃)

  unfoldable pub read_device_info_dual : (stack : DeviceInfo) → Hw → DeviceInfo × Hw
  read_device_info_dual stack h =
      let h₁ = write (0x92 ∷ []) (set_mode serial (pin_reset h)) in
      let h₂ = write (0xFF ∷ []) (write address (set_mode dual h₁)) in
      let (bytes, h₃) = read 2 h₂ in (fill bytes stack, pin_set h₃)

  unfoldable pub read_device_info_quad : (stack : DeviceInfo) → Hw → DeviceInfo × Hw
  read_device_info_quad stack h =
      let h₁ = write (0x94 ∷ []) (set_mode serial (pin_reset h)) in
      let h₂ = write (0xFF ∷ []) (write address (set_mode quad h₁)) in
      let (bytes, h₃) = read 2 (write (0 ∷ 0 ∷ []) h₂) in (fill bytes stack, pin_set h₃)

  unfoldable pub memory_test_sequence : (stack : DeviceInfo) → Hw → Bool × Hw
  memory_test_sequence stack h =
      let (info, h₁) = read_device_info stack h in
      if not (is_correct_manufacturer info.manufacturer)
      then (false, h₁)
      else if not (is_correct_capacity info.device)
      then (false, h₁)
      else let (info₂, h₂) = read_device_info_dual stack h₁ in
        if not (is_correct_manufacturer info₂.manufacturer)
        then (false, h₂)
        else if not (is_correct_capacity info₂.device)
        then (false, h₂)
        else let (info₃, h₃) = read_device_info_quad stack h₂ in
          if not (is_correct_manufacturer info₃.manufacturer)
          then (false, h₃)
          else if not (is_correct_capacity info₃.device)
          then (false, h₃)
          else (true, h₃)

  -- What the loop of main does after the timer: the level of the LED, and the chip.
  unfoldable pub pass : (led_inv : Bool) (stack : DeviceInfo) → Hw → Bool × Hw
  pass led_inv stack h =
      let led = not led_inv in
      let (passed, h') = memory_test_sequence stack h in (if passed then led_inv else led, h')
