-- ===== src/Stm32f0xx.antt =====
-- The board of examples/stm32f0xx_default/shared/board.c: the clocks that it names. The functions are
-- in the modules below, by what they set up.
pub mod Clock
pub mod Analog
pub mod Serial
pub mod Bus
pub mod Memory
pub mod Timing
pub mod System
pub mod Programs
pub mod Safe
use halm_examples.Base.{ℕ}

-- The clock classes of the library that the file names, but for that of the core.
-- The core takes its clock from the system clock, which has the number 0.
abbrev pub system_clock : ℕ
system_clock = 0

abbrev pub external_osc : ℕ
external_osc = 1

abbrev pub apb_clock : ℕ
apb_clock = 2

abbrev pub main_clock : ℕ
main_clock = 3

abbrev pub system_pll : ℕ
system_pll = 4

abbrev pub internal_osc14 : ℕ
internal_osc14 = 5

abbrev pub adc_clock : ℕ
adc_clock = 6

abbrev pub internal_low_speed_osc : ℕ
internal_low_speed_osc = 7
