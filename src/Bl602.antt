-- ===== src/Bl602.antt =====
-- The board of examples/bl602_default/shared/board.c: the clocks that it names. The functions are
-- in the modules below, by what they set up.
pub mod Clock
pub mod Serial
pub mod Bus
pub mod Timing
pub mod Waits
mod Tests
pub mod Programs
pub mod Safe
use halm_examples.Base.{ℕ}

-- The clock classes of the library that the file names, but for that of the core.
abbrev pub external_osc : ℕ
external_osc = 1

abbrev pub flash_clock : ℕ
flash_clock = 2

abbrev pub soc_clock : ℕ
soc_clock = 3

abbrev pub system_pll : ℕ
system_pll = 4

abbrev pub i2c_clock : ℕ
i2c_clock = 5

abbrev pub uart_clock : ℕ
uart_clock = 6

abbrev pub spi_clock : ℕ
spi_clock = 7
