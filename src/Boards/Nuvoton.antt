-- ===== src/Boards/Nuvoton.antt =====
-- The boards of M48x and M03x. A program of any of them runs safely.
use Prim.Native.String.{String}
use halm_examples.Base.{ℕ, ◌<◌, ◌≡◌, Option, none, List, []}
use halm_examples.Board.{Setting, Prog, Hardware, run, main_clock}
use halm_examples.Board.Enabled.{Enabled}
use halm_examples.Board.Laws.{IsHardware}
use halm_examples.Board.Safe.{EndsFed}
use halm_examples.M48x.Programs as M48xPrograms
use halm_examples.M48x.Safe.{m48x_program-EndsFed, m48x_program-Enabled}
use halm_examples.M03x.Programs as M03xPrograms
use halm_examples.M03x.Safe.{m03x_program-EndsFed, m03x_program-Enabled}

-- A board and what a program makes of it.
pub data BoardUse : Type 0 where
  m48x : M48xPrograms.Use → BoardUse
  m03x : M03xPrograms.Use → BoardUse

-- What the program calls.
unfoldable pub program_of : BoardUse → Prog (List ℕ)
program_of (m48x u) = M48xPrograms.program u
program_of (m03x u) = M03xPrograms.program u

-- The clock that feeds the core at the end.
unfoldable pub source_of : BoardUse → Option ℕ
source_of (m48x u) = M48xPrograms.core_source u
source_of (m03x u) = M03xPrograms.core_source u

-- The clocks that an object of a class needs.
unfoldable pub needs_of : BoardUse → String → List Setting → List ℕ
needs_of (m48x u) = M48xPrograms.needs
needs_of (m03x u) = M03xPrograms.needs

-- The clocks that a board enables for an object of a class, without waiting for them.
unfoldable pub feeds_of : BoardUse → String → List Setting → List ℕ
feeds_of (m48x u) = M48xPrograms.feeds
feeds_of (m03x u) = M03xPrograms.feeds

-- Started on any chip whose core runs from its own oscillator, with more passes of a loop than a
-- clock or an object needs, each program of these boards runs to its end or to a call that the
-- library refuses: a start of the clocks alone, or the full start and any setups in any order. No
-- loop goes on for ever, no assertion of the file fails, the core is fed at each step and takes
-- its clock from the source stated at the end, no object has a pin twice, and each object that
-- needs a clock (`needs_of`) is made when that clock is ready. Besides, on every path of the
-- program, whatever the library answers, each object is made after the clocks that feed it
-- (`feeds_of`) have been enabled.
pub nuvoton_program_of-EndsFed :
    (w : Hardware) (d : IsHardware w) (u : BoardUse) (fuel : ℕ) (h : w.Hw)
    → d.limit < fuel
    → w.origin main_clock h ≡ none
    → EndsFed w (source_of u) (run w (needs_of u) fuel (program_of u) h)
      × Enabled (feeds_of u) (program_of u) []
unfolding program_of source_of needs_of feeds_of
nuvoton_program_of-EndsFed w d (m48x u) fuel h lt e =
    (m48x_program-EndsFed w d u fuel h lt e, m48x_program-Enabled u)
nuvoton_program_of-EndsFed w d (m03x u) fuel h lt e =
    (m03x_program-EndsFed w d u fuel h lt e, m03x_program-Enabled u)
