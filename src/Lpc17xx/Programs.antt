-- ===== src/Lpc17xx/Programs.antt =====
-- What the programs of the repository do with the functions of examples/lpc17xx_default/shared/board.c.
use text.Mathlib.Text.{◌==◌}
use Prim.Native.String.{String}
use halm_examples.Base.{ℕ, Bool, Option, none, some, List, [], ◌∷◌, if◌then◌else◌}
use halm_examples.Board.{Setting, Prog, pure, ◌>>◌, main_clock}
use halm_examples.Board.Setups.{Kept, setups}
use halm_examples.Lpc17xx.{external_osc, system_pll, usb_clock, usb_pll}
use halm_examples.Lpc17xx.Analog.{
  board_setup_adc, board_setup_adc_dma, board_setup_adc_one_shot, board_setup_adc_stream,
  board_setup_dac, board_setup_dac_dma,
}
use halm_examples.Lpc17xx.Bus.{
  board_setup_can, board_setup_i2c, board_setup_i2c_slave, board_setup_i2s, board_setup_spi0,
  board_setup_spi1, board_setup_spi_dma0, board_setup_spi_dma1,
}
use halm_examples.Lpc17xx.Clock.{
  board_reset_clock, board_setup_clock_ext, board_setup_clock_output, board_setup_clock_pll,
}
use halm_examples.Lpc17xx.Memory.{board_setup_flash, board_setup_sdio}
use halm_examples.Lpc17xx.Serial.{board_setup_serial, board_setup_serial_dma, board_setup_usb}
use halm_examples.Lpc17xx.System.{board_setup_bod, board_setup_button, board_setup_low_priority_wq}
use halm_examples.Lpc17xx.Timing.{
  board_set_adc_timer_rate, board_setup_capture, board_setup_counter_timer,
  board_setup_freerunning_timer, board_setup_pwm, board_setup_rtc, board_setup_timer0,
  board_setup_timer1, board_setup_timer_rit, board_setup_wdt,
}

-- What is set up once the clocks run.
pub data Setup : Type 0 where
  low_priority_wq adc adc_dma adc_one_shot adc_stream bod button capture counter_timer dac dac_dma
        flash freerunning_timer i2c i2c_slave i2s serial serial_dma spi0 spi1 spi_dma0 spi_dma1
        timer0 timer1 timer_rit usb :
      Setup
  adc_timer_rate : ℕ → ℕ → ℕ → Setup
  can : ℕ → Setup
  pwm : Bool → Setup
  rtc : Bool → Setup
  wdt : Bool → Setup
  sdio : Bool → Setup
  clock_output : ℕ → Setup

unfoldable pub setup : Setup → Prog (List ℕ)
setup (adc_timer_rate x y z) = board_set_adc_timer_rate x y z >> pure []
setup low_priority_wq = board_setup_low_priority_wq >> pure []
setup adc = board_setup_adc
setup adc_dma = board_setup_adc_dma
setup adc_one_shot = board_setup_adc_one_shot
setup adc_stream = board_setup_adc_stream
setup bod = board_setup_bod
setup button = board_setup_button
setup (can x) = board_setup_can x
setup capture = board_setup_capture
setup counter_timer = board_setup_counter_timer
setup dac = board_setup_dac
setup dac_dma = board_setup_dac_dma
setup flash = board_setup_flash
setup freerunning_timer = board_setup_freerunning_timer
setup i2c = board_setup_i2c
setup i2c_slave = board_setup_i2c_slave
setup i2s = board_setup_i2s
setup (pwm x) = board_setup_pwm x
setup (rtc x) = board_setup_rtc x
setup serial = board_setup_serial
setup serial_dma = board_setup_serial_dma
setup spi0 = board_setup_spi0
setup spi1 = board_setup_spi1
setup spi_dma0 = board_setup_spi_dma0
setup spi_dma1 = board_setup_spi_dma1
setup timer0 = board_setup_timer0
setup timer1 = board_setup_timer1
setup timer_rit = board_setup_timer_rit
setup usb = board_setup_usb
setup (wdt x) = board_setup_wdt x
setup (sdio x) = board_setup_sdio x none
setup (clock_output x) = board_setup_clock_output x >> pure []

-- The uses that programs make of the file: the clocks only, or any setups after the start of the PLL.
pub data Use : Type 0 where
  started : List Setup → Use
  only_reset_clock only_ext : Use

unfoldable pub program : Use → Prog (List ℕ)
program (started xs) = board_setup_clock_pll >> setups setup xs
program only_reset_clock = board_reset_clock >> pure []
program only_ext = board_setup_clock_ext >> pure []

-- The clock of the core at the end.
unfoldable pub core_source : Use → Option ℕ
core_source (started xs) = some system_pll
core_source only_reset_clock = none
core_source only_ext = some external_osc

-- What the setups keep of the start of the PLL.
abbrev pub kept : Kept
kept = record {
  ups = external_osc ∷ system_pll ∷ [];
  inputs =
      (main_clock, some system_pll) ∷ (system_pll, some external_osc) ∷ (external_osc, none) ∷ [];
}

-- The clocks that must be ready when an object of the class is made.
unfoldable pub needs : String → List Setting → List ℕ
needs n s = if n == "UsbDevice" then usb_clock ∷ usb_pll ∷ [] else []
