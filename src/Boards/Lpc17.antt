-- ===== src/Boards/Lpc17.antt =====
-- The boards of LPC17xx, with and without trace pins. A program of any of them runs safely.
use Prim.Native.String.{String}
use halm_examples.Base.{ℕ, ◌<◌, ◌≡◌, Option, none, List}
use halm_examples.Board.{Setting, Prog, Hardware, run, main_clock}
use halm_examples.Board.Laws.{IsHardware}
use halm_examples.Board.Safe.{EndsFed}
use halm_examples.Lpc17xx.Programs as Lpc17xxPrograms
use halm_examples.Lpc17xx.Safe.{lpc17xx_program-EndsFed}
use halm_examples.Lpc17xxTrace.Programs as Lpc17xxTracePrograms
use halm_examples.Lpc17xxTrace.Safe.{lpc17xxtrace_program-EndsFed}

-- A board and what a program makes of it.
pub data BoardUse : Type 0 where
  lpc17xx : Lpc17xxPrograms.Use → BoardUse
  lpc17xxtrace : Lpc17xxTracePrograms.Use → BoardUse

-- What the program calls.
unfoldable pub program_of : BoardUse → Prog (List ℕ)
program_of (lpc17xx u) = Lpc17xxPrograms.program u
program_of (lpc17xxtrace u) = Lpc17xxTracePrograms.program u

-- The clock that feeds the core at the end.
unfoldable pub source_of : BoardUse → Option ℕ
source_of (lpc17xx u) = Lpc17xxPrograms.core_source u
source_of (lpc17xxtrace u) = Lpc17xxTracePrograms.core_source u

-- The clocks that an object of a class needs.
unfoldable pub needs_of : BoardUse → String → List Setting → List ℕ
needs_of (lpc17xx u) = Lpc17xxPrograms.needs
needs_of (lpc17xxtrace u) = Lpc17xxTracePrograms.needs

-- Started on any chip whose core runs from its own oscillator, with more passes of a loop than a
-- clock or an object needs, each program of these boards runs to its end or to a call that the
-- library refuses: a start of the clocks alone, or the full start and any setups but that of SDIO
-- with a timer in any order. No loop goes on for ever, no assertion of the file fails, the core is
-- fed at each step and takes its clock from the source stated at the end, no object has a pin
-- twice, and each object that needs a clock (`needs_of`) is made when that clock is ready.
pub lpc17_program_of-EndsFed :
    (w : Hardware) (d : IsHardware w) (u : BoardUse) (fuel : ℕ) (h : w.Hw)
    → d.limit < fuel
    → w.origin main_clock h ≡ none
    → EndsFed w (source_of u) (run w (needs_of u) fuel (program_of u) h)
unfolding program_of source_of needs_of
lpc17_program_of-EndsFed w d (lpc17xx u) fuel h lt e = lpc17xx_program-EndsFed w d u fuel h lt e
lpc17_program_of-EndsFed w d (lpc17xxtrace u) fuel h lt e =
    lpc17xxtrace_program-EndsFed w d u fuel h lt e
