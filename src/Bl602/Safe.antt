-- ===== src/Bl602/Safe.antt =====
-- Every function of examples/bl602_default/shared/board.c runs safely once the clocks have been started.
use native.Mathlib.Omega.{arith}
use halm_examples.Base.{ℕ, ◌<◌, ◌≡◌, refl, none, some}
use halm_examples.Board.{◌>>=◌, main_clock, Hardware, run}
use halm_examples.Board.Known.{
  Checks, put, after_enable, after_disable, after_ready, after_call, fed_for_sure, all_up,
}
use halm_examples.Board.Laws.{IsHardware}
use halm_examples.Board.Safe.{from_internal, feeds_core, safe_lem, EndsFed}
use halm_examples.Board.Setups.{known_kept, covers, Feeds, setups-EndsFed}
use halm_examples.Bl602.{external_osc, system_pll}
use halm_examples.Bl602.Bus.{board_setup_spi, board_setup_spi_dma}
use halm_examples.Bl602.Clock.{board_setup_clock_ext, board_setup_clock_pll}
use halm_examples.Bl602.Serial.{board_setup_serial, board_setup_serial_dma}
use halm_examples.Bl602.Timing.{board_setup_pwm, board_setup_timer, board_setup_timer64, pwm_loop}
use halm_examples.Bl602.Programs.{
  Use, program, core_source, needs, Setup, setup, started, kept, only_ext,
}

start-Checks : Checks needs (covers kept) board_setup_clock_pll from_internal
unfolding needs ◌>>=◌ Checks feeds_core put after_enable after_disable after_ready after_call
    fed_for_sure all_up covers board_setup_clock_pll pwm_loop
start-Checks = ground arith

setup-Checks : (x : Setup) → Checks needs (covers kept) (setup x) (known_kept kept)
unfolding needs ◌>>=◌ Checks feeds_core put after_enable after_disable after_ready after_call
    fed_for_sure all_up covers setup board_setup_pwm board_setup_serial board_setup_serial_dma
    board_setup_spi board_setup_spi_dma board_setup_timer board_setup_timer64 pwm_loop
setup-Checks x = ground arith

only_ext-Checks : Checks needs (feeds_core (some external_osc)) (program only_ext) from_internal
unfolding program needs ◌>>=◌ Checks feeds_core put after_enable after_disable after_ready
    after_call fed_for_sure all_up board_setup_clock_ext pwm_loop
only_ext-Checks = ground arith

kept-Feeds : Feeds kept (some system_pll)
unfolding fed_for_sure
kept-Feeds = (refl, refl)

-- Started on any chip whose core runs from its own oscillator, with more passes of a loop than a
-- clock or an object needs, each program runs to its end or to a call that the library refuses:
-- a start of the clocks alone, or that of the PLL and any setups in any order. No loop goes on for
-- ever, no assertion of the file fails, the core is fed at each step and takes its clock from the
-- source stated at the end, no object has a pin twice, and each object that needs a clock is made
-- when that clock is ready.
pub bl602_program-EndsFed :
    (w : Hardware) (d : IsHardware w) (u : Use) (fuel : ℕ) (h : w.Hw)
    → d.limit < fuel
    → w.origin main_clock h ≡ none
    → EndsFed w (core_source u) (run w needs fuel (program u) h)
unfolding program core_source
bl602_program-EndsFed w d (started xs) fuel h lt e =
    setups-EndsFed w d needs setup fuel kept (some system_pll) board_setup_clock_pll lt kept-Feeds
      start-Checks setup-Checks xs h e
bl602_program-EndsFed w d only_ext fuel h lt e =
    safe_lem w d needs (some external_osc) (program only_ext) fuel h lt e only_ext-Checks
