-- ===== src/Lpc82x/Programs.antt =====
-- What the programs of the repository do with the functions of examples/lpc82x_default/shared/board.c.
use text.Mathlib.Text.{◌==◌}
use Prim.Native.String.{String}
use halm_examples.Base.{ℕ, Bool, Option, none, some, List, [], ◌∷◌, if◌then◌else◌}
use halm_examples.Board.{Setting, Prog, pure, ◌>>◌, main_clock}
use halm_examples.Board.Setups.{Kept, setups}
use halm_examples.Lpc82x.{external_osc, system_pll, wdt_osc}
use halm_examples.Lpc82x.Analog.{
  board_setup_adc, board_setup_adc_dma, board_setup_adc_one_shot, board_setup_adc_stream,
}
use halm_examples.Lpc82x.Bus.{
  board_setup_i2c, board_setup_i2c_dma, board_setup_i2c_slave, board_setup_spi, board_setup_spi_dma,
}
use halm_examples.Lpc82x.Clock.{board_setup_clock_ext, board_setup_clock_pll}
use halm_examples.Lpc82x.Memory.{board_setup_flash}
use halm_examples.Lpc82x.Serial.{
  board_setup_serial, board_setup_serial_dma, board_setup_serial_poll,
}
use halm_examples.Lpc82x.System.{board_setup_bod, board_setup_button}
use halm_examples.Lpc82x.Timing.{
  board_set_adc_timer_rate, board_setup_pwm, board_setup_timer_mrt, board_setup_timer_sct,
  board_setup_timer_sct_high, board_setup_timer_sct_low, board_setup_timer_wkt, board_setup_wdt,
}

-- What is set up once the clocks run.
pub data Setup : Type 0 where
  adc adc_dma adc_one_shot adc_stream bod button flash i2c i2c_dma i2c_slave serial serial_dma
        serial_poll spi spi_dma timer_mrt timer_sct timer_sct_high timer_sct_low timer_wkt :
      Setup
  adc_timer_rate : ℕ → ℕ → ℕ → Setup
  pwm : Bool → Setup
  wdt : Bool → Setup

unfoldable pub setup : Setup → Prog (List ℕ)
setup (adc_timer_rate x y z) = board_set_adc_timer_rate x y z >> pure []
setup adc = board_setup_adc
setup adc_dma = board_setup_adc_dma
setup adc_one_shot = board_setup_adc_one_shot
setup adc_stream = board_setup_adc_stream
setup bod = board_setup_bod
setup button = board_setup_button
setup flash = board_setup_flash
setup i2c = board_setup_i2c
setup i2c_dma = board_setup_i2c_dma
setup i2c_slave = board_setup_i2c_slave
setup (pwm x) = board_setup_pwm x
setup serial = board_setup_serial
setup serial_dma = board_setup_serial_dma
setup serial_poll = board_setup_serial_poll
setup spi = board_setup_spi
setup spi_dma = board_setup_spi_dma
setup timer_mrt = board_setup_timer_mrt
setup timer_sct = board_setup_timer_sct
setup timer_sct_high = board_setup_timer_sct_high
setup timer_sct_low = board_setup_timer_sct_low
setup timer_wkt = board_setup_timer_wkt
setup (wdt x) = board_setup_wdt x

-- The uses that programs make of the file: the clocks only, or any setups after the start of the PLL.
pub data Use : Type 0 where
  started : List Setup → Use
  only_ext : Use

unfoldable pub program : Use → Prog (List ℕ)
program (started xs) = board_setup_clock_pll >> setups setup xs
program only_ext = board_setup_clock_ext >> pure []

-- The clock of the core at the end.
unfoldable pub core_source : Use → Option ℕ
core_source (started xs) = some system_pll
core_source only_ext = some external_osc

-- What the setups keep of the start of the PLL.
abbrev pub kept : Kept
kept = record {
  ups = external_osc ∷ system_pll ∷ [];
  inputs =
      (main_clock, some system_pll) ∷ (system_pll, some external_osc) ∷ (external_osc, none) ∷ [];
}

-- The clocks that must be ready when an object of the class is made.
unfoldable pub needs : String → List Setting → List ℕ
needs n s = if n == "Wwdt" then wdt_osc ∷ [] else []
