-- ===== src/Stm32f4xx.antt =====
-- The board of examples/stm32f4xx_default/shared/board.c: the clocks that it names. The functions are
-- in the modules below, by what they set up.
pub mod Clock
pub mod Analog
pub mod Serial
pub mod Bus
pub mod Memory
pub mod Timing
pub mod System
pub mod Programs
pub mod Safe
use halm_examples.Base.{ℕ}

-- The clock classes of the library that the file names, but for that of the core.
-- The core takes its clock from the system clock, which has the number 0.
abbrev pub system_clock : ℕ
system_clock = 0

abbrev pub external_osc : ℕ
external_osc = 1

abbrev pub apb1_clock : ℕ
apb1_clock = 2

abbrev pub apb2_clock : ℕ
apb2_clock = 3

abbrev pub main_clock : ℕ
main_clock = 4

abbrev pub internal_low_speed_osc : ℕ
internal_low_speed_osc = 5

abbrev pub main_pll : ℕ
main_pll = 6

abbrev pub audio_pll : ℕ
audio_pll = 7
