-- ===== src/M03x/Programs.antt =====
-- What the programs of the repository do with the functions of examples/m03x_default/shared/board.c.
use text.Mathlib.Text.{◌==◌}
use Prim.Native.String.{String}
use halm_examples.Base.{ℕ, Bool, Option, none, some, List, [], ◌∷◌, if◌then◌else◌, ◌||◌}
use halm_examples.Board.{Setting, Prog, pure, ◌>>◌, main_clock}
use halm_examples.Board.Setups.{Kept, setups}
use halm_examples.M03x.{
  adc_clock, bpwm0_clock, external_osc, spi0_clock, system_pll, uart0_clock, usb_clock, wdt_clock,
}
use halm_examples.M03x.Analog.{board_setup_adc, board_setup_adc_dma}
use halm_examples.M03x.Bus.{board_setup_i2c, board_setup_spi, board_setup_spi_dma}
use halm_examples.M03x.Clock.{board_setup_clock_ext, board_setup_clock_pll}
use halm_examples.M03x.Memory.{board_setup_flash, board_setup_flash_ldrom, board_setup_flash_sprom}
use halm_examples.M03x.Serial.{
  board_setup_serial, board_setup_serial_dma, board_setup_serial_dma_toc, board_setup_usb,
}
use halm_examples.M03x.System.{board_setup_bod, board_setup_button}
use halm_examples.M03x.Timing.{
  board_set_adc_timer_rate, board_setup_adc_timer, board_setup_pwm_bpwm, board_setup_timer,
  board_setup_wdt,
}

-- What is set up once the clocks run.
pub data Setup : Type 0 where
  adc adc_dma adc_timer bod button flash flash_ldrom flash_sprom i2c serial serial_dma
        serial_dma_toc spi spi_dma timer usb :
      Setup
  adc_timer_rate : ℕ → ℕ → ℕ → Setup
  pwm_bpwm : Bool → Setup
  wdt : Bool → Setup

unfoldable pub setup : Setup → Prog (List ℕ)
setup (adc_timer_rate x y z) = board_set_adc_timer_rate x y z >> pure []
setup adc = board_setup_adc
setup adc_dma = board_setup_adc_dma
setup adc_timer = board_setup_adc_timer
setup bod = board_setup_bod
setup button = board_setup_button
setup flash = board_setup_flash
setup flash_ldrom = board_setup_flash_ldrom
setup flash_sprom = board_setup_flash_sprom
setup i2c = board_setup_i2c
setup (pwm_bpwm x) = board_setup_pwm_bpwm x
setup serial = board_setup_serial
setup serial_dma = board_setup_serial_dma
setup serial_dma_toc = board_setup_serial_dma_toc
setup spi = board_setup_spi
setup spi_dma = board_setup_spi_dma
setup timer = board_setup_timer
setup usb = board_setup_usb
setup (wdt x) = board_setup_wdt x

-- The uses that programs make of the file: the clocks only, or any setups after the start of the PLL.
pub data Use : Type 0 where
  started : List Setup → Use
  only_ext : Use

unfoldable pub program : Use → Prog (List ℕ)
program (started xs) = board_setup_clock_pll >> setups setup xs
program only_ext = board_setup_clock_ext >> pure []

-- The clock of the core at the end.
unfoldable pub core_source : Use → Option ℕ
core_source (started xs) = some system_pll
core_source only_ext = some external_osc

-- What the setups keep of the start of the PLL.
abbrev pub kept : Kept
kept = record {
  ups = external_osc ∷ system_pll ∷ [];
  inputs =
      (main_clock, some system_pll) ∷ (system_pll, some external_osc) ∷ (external_osc, none) ∷ [];
}

-- The clocks that must be ready when an object of the class is made.
unfoldable pub needs : String → List Setting → List ℕ
needs n s = if n == "UsbDevice" then system_pll ∷ [] else []

-- The clocks that must have been enabled, ready or not, when an object of the class is made: those
-- that the file enables without waiting for them.
unfoldable pub feeds : String → List Setting → List ℕ
feeds n s =
    if n == "Adc" || n == "AdcDma"
    then adc_clock ∷ []
    else if n == "Spi" || n == "SpiDma"
    then spi0_clock ∷ []
    else if n == "Serial" || n == "SerialDma" || n == "SerialDmaTOC"
    then uart0_clock ∷ []
    else if n == "UsbDevice"
    then usb_clock ∷ []
    else if n == "BpwmUnit"
    then bpwm0_clock ∷ []
    else if n == "Wdt"
    then wdt_clock ∷ []
    else []
