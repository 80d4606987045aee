-- ===== src/Bl602/Programs.antt =====
-- What the programs of the repository do with the functions of examples/bl602_default/shared/board.c.
use text.Mathlib.Text.{◌==◌}
use Prim.Native.String.{String}
use halm_examples.Base.{ℕ, Bool, Option, none, some, List, [], ◌∷◌, if◌then◌else◌}
use halm_examples.Board.{Setting, Prog, pure, ◌>>◌, main_clock}
use halm_examples.Board.Setups.{Kept, setups}
use halm_examples.Bl602.{external_osc, spi_clock, system_pll, uart_clock}
use halm_examples.Bl602.Bus.{board_setup_spi, board_setup_spi_dma}
use halm_examples.Bl602.Clock.{board_setup_clock_ext, board_setup_clock_pll}
use halm_examples.Bl602.Serial.{board_setup_serial, board_setup_serial_dma}
use halm_examples.Bl602.Timing.{board_setup_pwm, board_setup_timer, board_setup_timer64}

-- What is set up once the clocks run, but for I2C, which is in Waits.
pub data Setup : Type 0 where
  serial serial_dma spi spi_dma timer timer64 : Setup
  pwm : Bool → Setup

unfoldable pub setup : Setup → Prog (List ℕ)
setup serial = board_setup_serial
setup serial_dma = board_setup_serial_dma
setup spi = board_setup_spi
setup spi_dma = board_setup_spi_dma
setup timer = board_setup_timer
setup timer64 = board_setup_timer64
setup (pwm x) = board_setup_pwm x

-- The uses that programs make of the file: the clocks only, or any setups after the start of the PLL.
pub data Use : Type 0 where
  started : List Setup → Use
  only_ext : Use

unfoldable pub program : Use → Prog (List ℕ)
program (started xs) = board_setup_clock_pll >> setups setup xs
program only_ext = board_setup_clock_ext >> pure []

-- The clock of the core at the end.
unfoldable pub core_source : Use → Option ℕ
core_source (started xs) = some system_pll
core_source only_ext = some external_osc

-- What the setups keep of the start of the PLL.
abbrev pub kept : Kept
kept = record {
  ups = external_osc ∷ system_pll ∷ [];
  inputs =
      (main_clock, some system_pll) ∷ (system_pll, some external_osc) ∷ (external_osc, none) ∷ [];
}

-- The clocks that must be ready when an object of the class is made.
unfoldable pub needs : String → List Setting → List ℕ
needs n s =
    if n == "Serial"
    then uart_clock ∷ []
    else if n == "SerialDma"
    then uart_clock ∷ []
    else if n == "I2C"
    then uart_clock ∷ []
    else if n == "Spi"
    then spi_clock ∷ []
    else if n == "SpiDma"
    then spi_clock ∷ []
    else []
