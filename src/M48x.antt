-- ===== src/M48x.antt =====
-- The board of examples/m48x_default/shared/board.c: the clocks that it names. The functions are
-- in the modules below, by what they set up.
pub mod Clock
pub mod Analog
pub mod Serial
pub mod Bus
pub mod Memory
pub mod Timing
pub mod System
pub mod Programs
pub mod Safe
use halm_examples.Base.{ℕ}

-- The clock classes of the library that the file names, but for that of the core.
abbrev pub external_osc : ℕ
external_osc = 1

abbrev pub apb0_clock : ℕ
apb0_clock = 2

abbrev pub apb1_clock : ℕ
apb1_clock = 3

abbrev pub system_pll : ℕ
system_pll = 4

abbrev pub eadc0_clock : ℕ
eadc0_clock = 5

abbrev pub timer1_clock : ℕ
timer1_clock = 6

abbrev pub bpwm0_clock : ℕ
bpwm0_clock = 7

abbrev pub qspi0_clock : ℕ
qspi0_clock = 8

abbrev pub sdh0_clock : ℕ
sdh0_clock = 9

abbrev pub uart0_clock : ℕ
uart0_clock = 10

abbrev pub spi3_clock : ℕ
spi3_clock = 11

abbrev pub timer0_clock : ℕ
timer0_clock = 12

abbrev pub usb_clock : ℕ
usb_clock = 13

abbrev pub wdt_clock : ℕ
wdt_clock = 14
