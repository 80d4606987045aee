-- ===== src/Stm32f1xx/Programs.antt =====
-- What the programs of the repository do with the functions of examples/stm32f1xx_default/shared/board.c.
use text.Mathlib.Text.{◌==◌}
use Prim.Native.String.{String}
use halm_examples.Base.{ℕ, Bool, Option, none, some, List, [], ◌∷◌, if◌then◌else◌}
use halm_examples.Board.{Setting, Prog, pure, ◌>>◌, main_clock}
use halm_examples.Board.Setups.{Kept, setups}
use halm_examples.Stm32f1xx.{external_osc, internal_low_speed_osc, main_pll, usb_clock}
use halm_examples.Stm32f1xx.Analog.{board_setup_adc, board_setup_adc_dma}
use halm_examples.Stm32f1xx.Bus.{board_setup_can, board_setup_i2c, board_setup_spi}
use halm_examples.Stm32f1xx.Clock.{board_setup_clock_ext, board_setup_clock_pll}
use halm_examples.Stm32f1xx.Memory.{board_setup_flash}
use halm_examples.Stm32f1xx.Serial.{board_setup_serial, board_setup_serial_dma, board_setup_usb}
use halm_examples.Stm32f1xx.System.{board_setup_button, board_setup_low_priority_wq}
use halm_examples.Stm32f1xx.Timing.{
  board_set_adc_timer_rate, board_setup_pwm, board_setup_timer2, board_setup_timer3,
  board_setup_wdt,
}

-- What is set up once the clocks run.
pub data Setup : Type 0 where
  low_priority_wq adc adc_dma button flash i2c serial serial_dma spi timer2 timer3 usb : Setup
  adc_timer_rate : ℕ → ℕ → ℕ → Setup
  can : ℕ → Setup
  pwm : Bool → Setup
  wdt : Bool → Setup

unfoldable pub setup : Setup → Prog (List ℕ)
setup (adc_timer_rate x y z) = board_set_adc_timer_rate x y z >> pure []
setup low_priority_wq = board_setup_low_priority_wq >> pure []
setup adc = board_setup_adc
setup adc_dma = board_setup_adc_dma
setup button = board_setup_button
setup (can x) = board_setup_can x
setup flash = board_setup_flash
setup i2c = board_setup_i2c
setup (pwm x) = board_setup_pwm x
setup serial = board_setup_serial
setup serial_dma = board_setup_serial_dma
setup spi = board_setup_spi
setup timer2 = board_setup_timer2
setup timer3 = board_setup_timer3
setup usb = board_setup_usb
setup (wdt x) = board_setup_wdt x

-- The uses that programs make of the file: the clocks only, or any setups after the start of the PLL.
pub data Use : Type 0 where
  started : List Setup → Use
  only_ext : Use

unfoldable pub program : Use → Prog (List ℕ)
program (started xs) = board_setup_clock_pll >> setups setup xs
program only_ext = board_setup_clock_ext >> pure []

-- The clock of the core at the end.
unfoldable pub core_source : Use → Option ℕ
core_source (started xs) = some main_pll
core_source only_ext = some external_osc

-- What the setups keep of the start of the PLL.
abbrev pub kept : Kept
kept = record {
  ups = external_osc ∷ main_pll ∷ [];
  inputs = (main_clock, some main_pll) ∷ (main_pll, some external_osc) ∷ (external_osc, none) ∷ [];
}

-- The clocks that must be ready when an object of the class is made.
unfoldable pub needs : String → List Setting → List ℕ
needs n s = if n == "Iwdg" then internal_low_speed_osc ∷ [] else []

-- The clocks that must have been enabled, ready or not, when an object of the class is made: those
-- that the file enables without waiting for them.
unfoldable pub feeds : String → List Setting → List ℕ
feeds n s = if n == "UsbDevice" then usb_clock ∷ [] else []
