-- ===== src/Lpc17xxTrace/Programs.antt =====
-- What the programs of the repository do with the functions of examples/lpc17xx_trace/shared/board.c.
use text.Mathlib.Text.{◌==◌}
use Prim.Native.String.{String}
use halm_examples.Base.{ℕ, Bool, Option, none, some, List, [], ◌∷◌, if◌then◌else◌}
use halm_examples.Board.{Setting, Prog, pure, ◌>>◌, main_clock}
use halm_examples.Board.Setups.{Kept, setups}
use halm_examples.Lpc17xxTrace.{external_osc, system_pll, usb_clock, usb_pll}
use halm_examples.Lpc17xxTrace.Bus.{board_setup_spi0}
use halm_examples.Lpc17xxTrace.Clock.{board_setup_clock_ext, board_setup_clock_pll}
use halm_examples.Lpc17xxTrace.Memory.{board_setup_sdio}
use halm_examples.Lpc17xxTrace.Serial.{board_setup_serial, board_setup_usb}
use halm_examples.Lpc17xxTrace.System.{board_setup_low_priority_wq}
use halm_examples.Lpc17xxTrace.Timing.{board_setup_timer0, board_setup_timer1, board_setup_timer2}

-- What is set up once the clocks run.
pub data Setup : Type 0 where
  low_priority_wq serial spi0 timer0 timer1 timer2 usb : Setup
  sdio : Bool → Setup

unfoldable pub setup : Setup → Prog (List ℕ)
setup low_priority_wq = board_setup_low_priority_wq >> pure []
setup serial = board_setup_serial
setup spi0 = board_setup_spi0
setup timer0 = board_setup_timer0
setup timer1 = board_setup_timer1
setup timer2 = board_setup_timer2
setup usb = board_setup_usb
setup (sdio x) = board_setup_sdio x none

-- The uses that programs make of the file: the clocks only, or any setups after the start of the PLL.
pub data Use : Type 0 where
  started : List Setup → Use
  only_ext : Use

unfoldable pub program : Use → Prog (List ℕ)
program (started xs) = board_setup_clock_pll >> setups setup xs
program only_ext = board_setup_clock_ext >> pure []

-- The clock of the core at the end.
unfoldable pub core_source : Use → Option ℕ
core_source (started xs) = some system_pll
core_source only_ext = some external_osc

-- What the setups keep of the start of the PLL.
abbrev pub kept : Kept
kept = record {
  ups = external_osc ∷ system_pll ∷ [];
  inputs =
      (main_clock, some system_pll) ∷ (system_pll, some external_osc) ∷ (external_osc, none) ∷ [];
}

-- The clocks that must be ready when an object of the class is made.
unfoldable pub needs : String → List Setting → List ℕ
needs n s = if n == "UsbDevice" then usb_clock ∷ usb_pll ∷ [] else []
