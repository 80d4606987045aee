-- ===== src/M03x.antt =====
-- The board of examples/m03x_default/shared/board.c: the clocks that it names. The functions are
-- in the modules below, by what they set up.
pub mod Clock
pub mod Analog
pub mod Serial
pub mod Bus
pub mod Memory
pub mod Timing
pub mod System
pub mod Programs
pub mod Safe
use halm_examples.Base.{ℕ}

-- The clock classes of the library that the file names, but for that of the core.
abbrev pub external_osc : ℕ
external_osc = 1

abbrev pub system_pll : ℕ
system_pll = 2

abbrev pub adc_clock : ℕ
adc_clock = 3

abbrev pub bpwm0_clock : ℕ
bpwm0_clock = 4

abbrev pub uart0_clock : ℕ
uart0_clock = 5

abbrev pub spi0_clock : ℕ
spi0_clock = 6

abbrev pub usb_clock : ℕ
usb_clock = 7

abbrev pub wdt_clock : ℕ
wdt_clock = 8
