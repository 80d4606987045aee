-- ===== src/Boards/Lpc1.antt =====
-- The boards of LPC82x, LPC13Uxx, LPC13xx, LPC11xx and LPC11Exx. A program of any of them runs safely.
use Prim.Native.String.{String}
use halm_examples.Base.{ℕ, ◌<◌, ◌≡◌, Option, none, List}
use halm_examples.Board.{Setting, Prog, Hardware, run, main_clock}
use halm_examples.Board.Laws.{IsHardware}
use halm_examples.Board.Safe.{EndsFed}
use halm_examples.Lpc82x.Programs as Lpc82xPrograms
use halm_examples.Lpc82x.Safe.{lpc82x_program-EndsFed}
use halm_examples.Lpc13uxx.Programs as Lpc13uxxPrograms
use halm_examples.Lpc13uxx.Safe.{lpc13uxx_program-EndsFed}
use halm_examples.Lpc13xx.Programs as Lpc13xxPrograms
use halm_examples.Lpc13xx.Safe.{lpc13xx_program-EndsFed}
use halm_examples.Lpc11xx.Programs as Lpc11xxPrograms
use halm_examples.Lpc11xx.Safe.{lpc11xx_program-EndsFed}
use halm_examples.Lpc11exx.Programs as Lpc11exxPrograms
use halm_examples.Lpc11exx.Safe.{lpc11exx_program-EndsFed}

-- A board and what a program makes of it.
pub data BoardUse : Type 0 where
  lpc82x : Lpc82xPrograms.Use → BoardUse
  lpc13uxx : Lpc13uxxPrograms.Use → BoardUse
  lpc13xx : Lpc13xxPrograms.Use → BoardUse
  lpc11xx : Lpc11xxPrograms.Use → BoardUse
  lpc11exx : Lpc11exxPrograms.Use → BoardUse

-- What the program calls.
unfoldable pub program_of : BoardUse → Prog (List ℕ)
program_of (lpc82x u) = Lpc82xPrograms.program u
program_of (lpc13uxx u) = Lpc13uxxPrograms.program u
program_of (lpc13xx u) = Lpc13xxPrograms.program u
program_of (lpc11xx u) = Lpc11xxPrograms.program u
program_of (lpc11exx u) = Lpc11exxPrograms.program u

-- The clock that feeds the core at the end.
unfoldable pub source_of : BoardUse → Option ℕ
source_of (lpc82x u) = Lpc82xPrograms.core_source u
source_of (lpc13uxx u) = Lpc13uxxPrograms.core_source u
source_of (lpc13xx u) = Lpc13xxPrograms.core_source u
source_of (lpc11xx u) = Lpc11xxPrograms.core_source u
source_of (lpc11exx u) = Lpc11exxPrograms.core_source u

-- The clocks that an object of a class needs.
unfoldable pub needs_of : BoardUse → String → List Setting → List ℕ
needs_of (lpc82x u) = Lpc82xPrograms.needs
needs_of (lpc13uxx u) = Lpc13uxxPrograms.needs
needs_of (lpc13xx u) = Lpc13xxPrograms.needs
needs_of (lpc11xx u) = Lpc11xxPrograms.needs
needs_of (lpc11exx u) = Lpc11exxPrograms.needs

-- Started on any chip whose core runs from its own oscillator, with more passes of a loop than a
-- clock or an object needs, each program of these boards runs to its end or to a call that the
-- library refuses: a start of the clocks alone, or the full start and any setups in any order. No
-- loop goes on for ever, no assertion of the file fails, the core is fed at each step and takes
-- its clock from the source stated at the end, no object has a pin twice, and each object that
-- needs a clock (`needs_of`) is made when that clock is ready.
pub lpc1_program_of-EndsFed :
    (w : Hardware) (d : IsHardware w) (u : BoardUse) (fuel : ℕ) (h : w.Hw)
    → d.limit < fuel
    → w.origin main_clock h ≡ none
    → EndsFed w (source_of u) (run w (needs_of u) fuel (program_of u) h)
unfolding program_of source_of needs_of
lpc1_program_of-EndsFed w d (lpc82x u) fuel h lt e = lpc82x_program-EndsFed w d u fuel h lt e
lpc1_program_of-EndsFed w d (lpc13uxx u) fuel h lt e = lpc13uxx_program-EndsFed w d u fuel h lt e
lpc1_program_of-EndsFed w d (lpc13xx u) fuel h lt e = lpc13xx_program-EndsFed w d u fuel h lt e
lpc1_program_of-EndsFed w d (lpc11xx u) fuel h lt e = lpc11xx_program-EndsFed w d u fuel h lt e
lpc1_program_of-EndsFed w d (lpc11exx u) fuel h lt e = lpc11exx_program-EndsFed w d u fuel h lt e
