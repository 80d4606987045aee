-- ===== src/Boards/Tests.antt =====
-- The families of boards on a small chip.
use halm_examples.Base.{refl, false, [], ◌∷◌}
use halm_examples.Board.{run}
use halm_examples.Board.Enabled.{Enabled}
use halm_examples.Board.Safe.{EndsFed}
use halm_examples.Board.Sample.{sample, sample-IsHardware, start, limit_lt}
use halm_examples.Boards.Lpc17
use halm_examples.Lpc17xx.Programs as Lpc17xxPrograms
use halm_examples.Boards.Lpc1
use halm_examples.Lpc13uxx.Programs as Lpc13uxxPrograms
use halm_examples.Boards.Stm32
use halm_examples.Stm32f4xx.Programs as Stm32f4xxPrograms
use halm_examples.Boards.Nuvoton
use halm_examples.M48x.Programs as M48xPrograms

abbrev lpc17_use : Lpc17.BoardUse
lpc17_use =
    Lpc17.lpc17xx (Lpc17xxPrograms.started (Lpc17xxPrograms.usb ∷ (Lpc17xxPrograms.wdt false) ∷ []))

lpc17_program_of-EndsFed_example :
    EndsFed sample
      (Lpc17.source_of lpc17_use)
      (run sample (Lpc17.needs_of lpc17_use) 2 (Lpc17.program_of lpc17_use) start)
lpc17_program_of-EndsFed_example =
    Lpc17.lpc17_program_of-EndsFed sample sample-IsHardware lpc17_use 2 start limit_lt refl

abbrev lpc1_use : Lpc1.BoardUse
lpc1_use =
    Lpc1.lpc13uxx
      (Lpc13uxxPrograms.started (Lpc13uxxPrograms.usb ∷ (Lpc13uxxPrograms.wdt false) ∷ []))

lpc1_program_of-EndsFed_example :
    EndsFed sample
      (Lpc1.source_of lpc1_use)
      (run sample (Lpc1.needs_of lpc1_use) 2 (Lpc1.program_of lpc1_use) start)
lpc1_program_of-EndsFed_example =
    Lpc1.lpc1_program_of-EndsFed sample sample-IsHardware lpc1_use 2 start limit_lt refl

abbrev stm32_use : Stm32.BoardUse
stm32_use =
    Stm32.stm32f4xx
      (Stm32f4xxPrograms.started (Stm32f4xxPrograms.usb ∷ (Stm32f4xxPrograms.wdt false) ∷ []))

stm32_program_of-EndsFed_example :
    EndsFed sample
      (Stm32.source_of stm32_use)
      (run sample (Stm32.needs_of stm32_use) 2 (Stm32.program_of stm32_use) start)
    × Enabled (Stm32.feeds_of stm32_use) (Stm32.program_of stm32_use) []
stm32_program_of-EndsFed_example =
    Stm32.stm32_program_of-EndsFed sample sample-IsHardware stm32_use 2 start limit_lt refl

abbrev nuvoton_use : Nuvoton.BoardUse
nuvoton_use =
    Nuvoton.m48x (M48xPrograms.started ((M48xPrograms.wdt false) ∷ M48xPrograms.serial ∷ []))

nuvoton_program_of-EndsFed_example :
    EndsFed sample
      (Nuvoton.source_of nuvoton_use)
      (run sample (Nuvoton.needs_of nuvoton_use) 2 (Nuvoton.program_of nuvoton_use) start)
    × Enabled (Nuvoton.feeds_of nuvoton_use) (Nuvoton.program_of nuvoton_use) []
nuvoton_program_of-EndsFed_example =
    Nuvoton.nuvoton_program_of-EndsFed sample sample-IsHardware nuvoton_use 2 start limit_lt refl
