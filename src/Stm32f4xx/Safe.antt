-- ===== src/Stm32f4xx/Safe.antt =====
-- Every function of examples/stm32f4xx_default/shared/board.c runs safely once the clocks have been started.
use native.Mathlib.Omega.{arith}
use halm_examples.Base.{ℕ, ◌<◌, ◌≡◌, refl, none, some, List, []}
use halm_examples.Board.Enabled.{Enabled, without, bind-Enabled, setups-Enabled}
use halm_examples.Board.{◌>>=◌, main_clock, Hardware, run}
use halm_examples.Board.Known.{
  Checks, put, after_enable, after_disable, after_ready, after_call, fed_for_sure, all_up,
}
use halm_examples.Board.Laws.{IsHardware}
use halm_examples.Board.Safe.{from_internal, feeds_core, safe_lem, EndsFed}
use halm_examples.Board.Setups.{known_kept, covers, Feeds, setups-EndsFed, setups}
use halm_examples.Stm32f4xx.{external_osc, main_pll}
use halm_examples.Stm32f4xx.Analog.{board_setup_adc, board_setup_adc_dma}
use halm_examples.Stm32f4xx.Bus.{
  board_setup_can, board_setup_i2c1, board_setup_i2c2, board_setup_i2s, board_setup_spi1,
  board_setup_spi2,
}
use halm_examples.Stm32f4xx.Clock.{board_setup_clock_ext, board_setup_clock_pll, pll_config}
use halm_examples.Stm32f4xx.Memory.{board_setup_flash, board_setup_memory_sram, board_setup_sdio}
use halm_examples.Stm32f4xx.Serial.{board_setup_serial, board_setup_serial_dma, board_setup_usb}
use halm_examples.Stm32f4xx.System.{board_setup_button, board_setup_low_priority_wq}
use halm_examples.Stm32f4xx.Timing.{
  board_set_adc_timer_rate, board_setup_freerunning_timer, board_setup_pwm, board_setup_timer2,
  board_setup_timer5, board_setup_wdt,
}
use halm_examples.Stm32f4xx.Programs.{
  feeds, Use, program, core_source, needs, Setup, setup, started, kept, only_ext,
}

start-Checks : Checks needs (covers kept) board_setup_clock_pll from_internal
unfolding needs ◌>>=◌ Checks feeds_core put after_enable after_disable after_ready after_call
    fed_for_sure all_up covers board_setup_clock_pll pll_config
start-Checks = ground arith

setup-Checks : (x : Setup) → Checks needs (covers kept) (setup x) (known_kept kept)
unfolding needs ◌>>=◌ Checks feeds_core put after_enable after_disable after_ready after_call
    fed_for_sure all_up covers setup board_set_adc_timer_rate board_setup_adc board_setup_adc_dma
    board_setup_button board_setup_can board_setup_flash board_setup_freerunning_timer
    board_setup_i2c1 board_setup_i2c2 board_setup_i2s board_setup_low_priority_wq
    board_setup_memory_sram board_setup_pwm board_setup_sdio board_setup_serial
    board_setup_serial_dma board_setup_spi1 board_setup_spi2 board_setup_timer2 board_setup_timer5
    board_setup_usb board_setup_wdt pll_config
setup-Checks x = ground arith

only_ext-Checks : Checks needs (feeds_core (some external_osc)) (program only_ext) from_internal
unfolding program needs ◌>>=◌ Checks feeds_core put after_enable after_disable after_ready
    after_call fed_for_sure all_up board_setup_clock_ext pll_config
only_ext-Checks = ground arith

kept-Feeds : Feeds kept (some main_pll)
unfolding fed_for_sure
kept-Feeds = (refl, refl)

-- Each program runs safely on any chip whose core starts from its own oscillator.
pub stm32f4xx_program-EndsFed :
    (w : Hardware) (d : IsHardware w) (u : Use) (fuel : ℕ) (h : w.Hw)
    → d.limit < fuel
    → w.origin main_clock h ≡ none
    → EndsFed w (core_source u) (run w needs fuel (program u) h)
unfolding program core_source
stm32f4xx_program-EndsFed w d (started xs) fuel h lt e =
    setups-EndsFed w d needs setup fuel kept (some main_pll) board_setup_clock_pll lt kept-Feeds
      start-Checks setup-Checks xs h e
stm32f4xx_program-EndsFed w d only_ext fuel h lt e =
    safe_lem w d needs (some external_osc) (program only_ext) fuel h lt e only_ext-Checks

setup-Enabled : (x : Setup) (on : List ℕ) → Enabled feeds (setup x) on
unfolding feeds ◌>>=◌ Enabled without setup board_set_adc_timer_rate board_setup_adc
    board_setup_adc_dma board_setup_button board_setup_can board_setup_flash
    board_setup_freerunning_timer board_setup_i2c1 board_setup_i2c2 board_setup_i2s
    board_setup_low_priority_wq board_setup_memory_sram board_setup_pwm board_setup_sdio
    board_setup_serial board_setup_serial_dma board_setup_spi1 board_setup_spi2 board_setup_timer2
    board_setup_timer5 board_setup_usb board_setup_wdt pll_config
setup-Enabled x on = ground arith

-- What each program enables before it makes an object.
pub stm32f4xx_program-Enabled : (u : Use) → Enabled feeds (program u) []
unfolding program ◌>>=◌ Enabled without board_setup_clock_pll board_setup_clock_ext pll_config
stm32f4xx_program-Enabled (started xs) =
    bind-Enabled feeds board_setup_clock_pll (λ _. setups setup xs) [] (ground arith)
      λ _ on. setups-Enabled feeds setup setup-Enabled xs on
stm32f4xx_program-Enabled only_ext = ground arith
