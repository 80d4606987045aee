-- ===== src/Lpc13xx/Programs.antt =====
-- What the programs of the repository do with the functions of examples/lpc13xx_default/shared/board.c.
use text.Mathlib.Text.{◌==◌}
use Prim.Native.String.{String}
use halm_examples.Base.{ℕ, Bool, Option, none, some, List, [], ◌∷◌, if◌then◌else◌}
use halm_examples.Board.{Setting, Prog, pure, ◌>>◌, main_clock}
use halm_examples.Board.Setups.{Kept, setups}
use halm_examples.Lpc13xx.{external_osc, system_pll, usb_clock, usb_pll, wdt_clock, wdt_osc}
use halm_examples.Lpc13xx.Analog.{board_setup_adc, board_setup_adc_one_shot}
use halm_examples.Lpc13xx.Bus.{board_setup_i2c, board_setup_spi}
use halm_examples.Lpc13xx.Clock.{
  board_setup_clock_ext, board_setup_clock_output, board_setup_clock_pll,
}
use halm_examples.Lpc13xx.Memory.{board_setup_flash}
use halm_examples.Lpc13xx.Serial.{board_setup_serial, board_setup_serial_poll, board_setup_usb}
use halm_examples.Lpc13xx.System.{board_setup_bod, board_setup_button}
use halm_examples.Lpc13xx.Timing.{
  board_set_adc_timer_rate, board_setup_capture, board_setup_counter_timer,
  board_setup_freerunning_timer, board_setup_pwm, board_setup_timer16_b0, board_setup_timer16_b1,
  board_setup_timer32_b0, board_setup_timer32_b1, board_setup_wdt,
}

-- What is set up once the clocks run.
pub data Setup : Type 0 where
  adc adc_one_shot bod button capture counter_timer flash freerunning_timer i2c serial serial_poll
        spi timer16_b0 timer16_b1 timer32_b0 timer32_b1 usb :
      Setup
  adc_timer_rate : ℕ → ℕ → ℕ → Setup
  pwm : Bool → Setup
  wdt : Bool → Setup
  clock_output : ℕ → Setup

unfoldable pub setup : Setup → Prog (List ℕ)
setup (adc_timer_rate x y z) = board_set_adc_timer_rate x y z >> pure []
setup adc = board_setup_adc
setup adc_one_shot = board_setup_adc_one_shot
setup bod = board_setup_bod
setup button = board_setup_button
setup capture = board_setup_capture
setup counter_timer = board_setup_counter_timer
setup flash = board_setup_flash
setup freerunning_timer = board_setup_freerunning_timer
setup i2c = board_setup_i2c
setup (pwm x) = board_setup_pwm x
setup serial = board_setup_serial
setup serial_poll = board_setup_serial_poll
setup spi = board_setup_spi
setup timer16_b0 = board_setup_timer16_b0
setup timer16_b1 = board_setup_timer16_b1
setup timer32_b0 = board_setup_timer32_b0
setup timer32_b1 = board_setup_timer32_b1
setup usb = board_setup_usb
setup (wdt x) = board_setup_wdt x
setup (clock_output x) = board_setup_clock_output x >> pure []

-- The uses that programs make of the file: the clocks only, or any setups after the start of the PLL.
pub data Use : Type 0 where
  started : List Setup → Use
  only_ext : Use

unfoldable pub program : Use → Prog (List ℕ)
program (started xs) = board_setup_clock_pll >> setups setup xs
program only_ext = board_setup_clock_ext >> pure []

-- The clock of the core at the end.
unfoldable pub core_source : Use → Option ℕ
core_source (started xs) = some system_pll
core_source only_ext = some external_osc

-- What the setups keep of the start of the PLL.
abbrev pub kept : Kept
kept = record {
  ups = external_osc ∷ system_pll ∷ [];
  inputs =
      (main_clock, some system_pll) ∷ (system_pll, some external_osc) ∷ (external_osc, none) ∷ [];
}

-- The clocks that must be ready when an object of the class is made.
unfoldable pub needs : String → List Setting → List ℕ
needs n s =
    if n == "UsbDevice"
    then usb_clock ∷ usb_pll ∷ []
    else if n == "Wwdt"
    then wdt_clock ∷ wdt_osc ∷ []
    else []
