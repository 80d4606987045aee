-- ===== src/Lpc11exx/Programs.antt =====
-- What the programs of the repository do with the functions of examples/lpc11exx_default/shared/board.c.
use Prim.Native.String.{String}
use halm_examples.Base.{ℕ, Option, none, some, List, [], ◌∷◌}
use halm_examples.Board.{Setting, Prog, pure, ◌>>◌, main_clock}
use halm_examples.Board.Setups.{Kept, setups}
use halm_examples.Lpc11exx.{external_osc, system_pll}
use halm_examples.Lpc11exx.Clock.{board_setup_clock_ext, board_setup_clock_pll}
use halm_examples.Lpc11exx.Memory.{board_setup_eeprom, board_setup_flash}
use halm_examples.Lpc11exx.Timing.{board_setup_timer}

-- What is set up once the clocks run.
pub data Setup : Type 0 where
  eeprom flash timer : Setup

unfoldable pub setup : Setup → Prog (List ℕ)
setup eeprom = board_setup_eeprom
setup flash = board_setup_flash
setup timer = board_setup_timer

-- The uses that programs make of the file: the clocks only, or any setups after the start of the PLL.
pub data Use : Type 0 where
  started : List Setup → Use
  only_ext : Use

unfoldable pub program : Use → Prog (List ℕ)
program (started xs) = board_setup_clock_pll >> setups setup xs
program only_ext = board_setup_clock_ext >> pure []

-- The clock of the core at the end.
unfoldable pub core_source : Use → Option ℕ
core_source (started xs) = some system_pll
core_source only_ext = some external_osc

-- What the setups keep of the start of the PLL.
abbrev pub kept : Kept
kept = record {
  ups = external_osc ∷ system_pll ∷ [];
  inputs =
      (main_clock, some system_pll) ∷ (system_pll, some external_osc) ∷ (external_osc, none) ∷ [];
}

-- No clocks beyond that of the core are known to be needed.
unfoldable pub needs : String → List Setting → List ℕ
needs n s = []
