-- ===== src/Boards/Stm32.antt =====
-- The boards of STM32F0xx, STM32F1xx and STM32F4xx. A program of any of them runs safely.
use Prim.Native.String.{String}
use halm_examples.Base.{ℕ, ◌<◌, ◌≡◌, Option, none, List, []}
use halm_examples.Board.{Setting, Prog, Hardware, run, main_clock}
use halm_examples.Board.Enabled.{Enabled}
use halm_examples.Board.Laws.{IsHardware}
use halm_examples.Board.Safe.{EndsFed}
use halm_examples.Stm32f1xx.Programs as Stm32f1xxPrograms
use halm_examples.Stm32f1xx.Safe.{stm32f1xx_program-EndsFed, stm32f1xx_program-Enabled}
use halm_examples.Stm32f0xx.Programs as Stm32f0xxPrograms
use halm_examples.Stm32f0xx.Safe.{stm32f0xx_program-EndsFed, stm32f0xx_program-Enabled}
use halm_examples.Stm32f4xx.Programs as Stm32f4xxPrograms
use halm_examples.Stm32f4xx.Safe.{stm32f4xx_program-EndsFed, stm32f4xx_program-Enabled}

-- A board and what a program makes of it.
pub data BoardUse : Type 0 where
  stm32f1xx : Stm32f1xxPrograms.Use → BoardUse
  stm32f0xx : Stm32f0xxPrograms.Use → BoardUse
  stm32f4xx : Stm32f4xxPrograms.Use → BoardUse

-- What the program calls.
unfoldable pub program_of : BoardUse → Prog (List ℕ)
program_of (stm32f1xx u) = Stm32f1xxPrograms.program u
program_of (stm32f0xx u) = Stm32f0xxPrograms.program u
program_of (stm32f4xx u) = Stm32f4xxPrograms.program u

-- The clock that feeds the core at the end.
unfoldable pub source_of : BoardUse → Option ℕ
source_of (stm32f1xx u) = Stm32f1xxPrograms.core_source u
source_of (stm32f0xx u) = Stm32f0xxPrograms.core_source u
source_of (stm32f4xx u) = Stm32f4xxPrograms.core_source u

-- The clocks that an object of a class needs.
unfoldable pub needs_of : BoardUse → String → List Setting → List ℕ
needs_of (stm32f1xx u) = Stm32f1xxPrograms.needs
needs_of (stm32f0xx u) = Stm32f0xxPrograms.needs
needs_of (stm32f4xx u) = Stm32f4xxPrograms.needs

-- The clocks that a board enables for an object of a class, without waiting for them.
unfoldable pub feeds_of : BoardUse → String → List Setting → List ℕ
feeds_of (stm32f1xx u) = Stm32f1xxPrograms.feeds
feeds_of (stm32f0xx u) = Stm32f0xxPrograms.feeds
feeds_of (stm32f4xx u) = Stm32f4xxPrograms.feeds

-- Started on any chip whose core runs from its own oscillator, with more passes of a loop than a
-- clock or an object needs, each program of these boards runs to its end or to a call that the
-- library refuses: a start of the clocks alone, or the full start and any setups in any order. No
-- loop goes on for ever, no assertion of the file fails, the core is fed at each step and takes
-- its clock from the source stated at the end, no object has a pin twice, and each object that
-- needs a clock (`needs_of`) is made when that clock is ready. Besides, on every path of the
-- program, whatever the library answers, each object is made after the clocks that feed it
-- (`feeds_of`) have been enabled.
pub stm32_program_of-EndsFed :
    (w : Hardware) (d : IsHardware w) (u : BoardUse) (fuel : ℕ) (h : w.Hw)
    → d.limit < fuel
    → w.origin main_clock h ≡ none
    → EndsFed w (source_of u) (run w (needs_of u) fuel (program_of u) h)
      × Enabled (feeds_of u) (program_of u) []
unfolding program_of source_of needs_of feeds_of
stm32_program_of-EndsFed w d (stm32f1xx u) fuel h lt e =
    (stm32f1xx_program-EndsFed w d u fuel h lt e, stm32f1xx_program-Enabled u)
stm32_program_of-EndsFed w d (stm32f0xx u) fuel h lt e =
    (stm32f0xx_program-EndsFed w d u fuel h lt e, stm32f0xx_program-Enabled u)
stm32_program_of-EndsFed w d (stm32f4xx u) fuel h lt e =
    (stm32f4xx_program-EndsFed w d u fuel h lt e, stm32f4xx_program-Enabled u)
