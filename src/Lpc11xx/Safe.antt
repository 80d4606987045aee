-- ===== src/Lpc11xx/Safe.antt =====
-- Every function of examples/lpc11xx_default/shared/board.c runs safely once the clocks have been started.
use native.Mathlib.Omega.{arith}
use halm_examples.Base.{ℕ, ◌<◌, ◌≡◌, refl, none, some}
use halm_examples.Board.{◌>>=◌, main_clock, Hardware, run}
use halm_examples.Board.Known.{
  Checks, put, after_enable, after_disable, after_ready, after_call, fed_for_sure, all_up,
}
use halm_examples.Board.Laws.{IsHardware}
use halm_examples.Board.Safe.{from_internal, feeds_core, safe_lem, EndsFed}
use halm_examples.Board.Setups.{known_kept, covers, Feeds, setups-EndsFed}
use halm_examples.Lpc11xx.{external_osc, system_pll}
use halm_examples.Lpc11xx.Analog.{board_setup_adc, board_setup_adc_one_shot}
use halm_examples.Lpc11xx.Bus.{board_setup_i2c, board_setup_spi}
use halm_examples.Lpc11xx.Clock.{board_setup_clock_ext, board_setup_clock_pll}
use halm_examples.Lpc11xx.Memory.{board_setup_flash}
use halm_examples.Lpc11xx.Serial.{board_setup_serial}
use halm_examples.Lpc11xx.System.{board_setup_bod, board_setup_button}
use halm_examples.Lpc11xx.Timing.{
  board_set_adc_timer_rate, board_setup_timer16_b0, board_setup_timer16_b1, board_setup_timer32_b0,
  board_setup_timer32_b1, board_setup_wdt,
}
use halm_examples.Lpc11xx.Programs.{
  Use, program, core_source, needs, Setup, setup, started, kept, only_ext,
}

start-Checks : Checks needs (covers kept) board_setup_clock_pll from_internal
unfolding needs ◌>>=◌ Checks feeds_core put after_enable after_disable after_ready after_call
    fed_for_sure all_up covers board_setup_clock_pll
start-Checks = ground arith

setup-Checks : (x : Setup) → Checks needs (covers kept) (setup x) (known_kept kept)
unfolding needs ◌>>=◌ Checks feeds_core put after_enable after_disable after_ready after_call
    fed_for_sure all_up covers setup board_set_adc_timer_rate board_setup_adc
    board_setup_adc_one_shot board_setup_bod board_setup_button board_setup_flash board_setup_i2c
    board_setup_serial board_setup_spi board_setup_timer16_b0 board_setup_timer16_b1
    board_setup_timer32_b0 board_setup_timer32_b1 board_setup_wdt
setup-Checks x = ground arith

only_ext-Checks : Checks needs (feeds_core (some external_osc)) (program only_ext) from_internal
unfolding program needs ◌>>=◌ Checks feeds_core put after_enable after_disable after_ready
    after_call fed_for_sure all_up board_setup_clock_ext
only_ext-Checks = ground arith

kept-Feeds : Feeds kept (some system_pll)
unfolding fed_for_sure
kept-Feeds = (refl, refl)

-- Each program runs safely on any chip whose core starts from its own oscillator.
pub lpc11xx_program-EndsFed :
    (w : Hardware) (d : IsHardware w) (u : Use) (fuel : ℕ) (h : w.Hw)
    → d.limit < fuel
    → w.origin main_clock h ≡ none
    → EndsFed w (core_source u) (run w needs fuel (program u) h)
unfolding program core_source
lpc11xx_program-EndsFed w d (started xs) fuel h lt e =
    setups-EndsFed w d needs setup fuel kept (some system_pll) board_setup_clock_pll lt kept-Feeds
      start-Checks setup-Checks xs h e
lpc11xx_program-EndsFed w d only_ext fuel h lt e =
    safe_lem w d needs (some external_osc) (program only_ext) fuel h lt e only_ext-Checks
