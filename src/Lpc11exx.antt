-- ===== src/Lpc11exx.antt =====
-- The board of examples/lpc11exx_default/shared/board.c: the clocks that it names. The functions are
-- in the modules below, by what they set up.
pub mod Clock
pub mod Memory
pub mod Timing
pub mod Programs
pub mod Safe
use halm_examples.Base.{ℕ}

-- The clock classes of the library that the file names, but for that of the core.
abbrev pub external_osc : ℕ
external_osc = 1

abbrev pub system_pll : ℕ
system_pll = 2
