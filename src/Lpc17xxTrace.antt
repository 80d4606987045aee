-- ===== src/Lpc17xxTrace.antt =====
-- The board of examples/lpc17xx_trace/shared/board.c: the clocks that it names. The functions are
-- in the modules below, by what they set up.
pub mod Clock
pub mod Serial
pub mod Bus
pub mod Memory
pub mod Timing
pub mod System
pub mod Programs
pub mod Safe
use halm_examples.Base.{ℕ}

-- The clock classes of the library that the file names, but for that of the core.
abbrev pub external_osc : ℕ
external_osc = 1

abbrev pub system_pll : ℕ
system_pll = 2

abbrev pub usb_pll : ℕ
usb_pll = 3

abbrev pub usb_clock : ℕ
usb_clock = 4
