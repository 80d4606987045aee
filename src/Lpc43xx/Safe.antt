-- ===== src/Lpc43xx/Safe.antt =====
-- Every function of examples/lpc43xx_default/shared/board.c runs safely once the clocks have been started.
use native.Mathlib.Omega.{arith}
use halm_examples.Base.{ℕ, ◌<◌, ◌≡◌, refl, none, some, Bool}
use Prim.Native.String.{String}
use text.Mathlib.Text.{◌==◌}
use halm_examples.Board.Enabled.{Enabled}
use halm_examples.Board.{◌>>=◌, main_clock, Hardware, run}
use halm_examples.Board.Known.{
  Checks, put, after_enable, after_disable, after_ready, after_call, fed_for_sure, all_up,
}
use halm_examples.Board.Laws.{IsHardware}
use halm_examples.Board.Safe.{from_internal, feeds_core, feeds_either, either_lem, EndsEither}
use halm_examples.Board.Setups.{known_kept, covers, covers_either, Feeds, setups-EndsEither}
use halm_examples.Lpc43xx.{external_osc, system_pll}
use halm_examples.Lpc43xx.Analog.{
  board_setup_adc, board_setup_adc_dma, board_setup_adc_one_shot, board_setup_adc_stream,
  board_setup_dac, board_setup_dac_dma,
}
use halm_examples.Lpc43xx.Bus.{
  board_setup_can, board_setup_ethernet, board_setup_i2c0, board_setup_i2c1, board_setup_i2c_slave0,
  board_setup_i2c_slave1, board_setup_i2s, board_setup_spi0, board_setup_spi1, board_setup_spi_dma0,
  board_setup_spi_dma1,
}
use halm_examples.Lpc43xx.Clock.{
  board_reset_clock, board_setup_clock_ext, board_setup_clock_pll, board_setup_clock_pll_generic,
  both_ready, enable_periph_clock, load_settings, spifi_from_pll, start_ext, start_pll,
}
use halm_examples.Lpc43xx.Memory.{
  board_setup_eeprom, board_setup_flash, board_setup_memory_sram, board_setup_sdio,
  board_setup_spim,
}
use halm_examples.Lpc43xx.Serial.{
  board_setup_serial0, board_setup_serial1, board_setup_serial2, board_setup_serial_dma0,
  board_setup_serial_dma1, board_setup_serial_dma2, board_setup_uac_feedback, board_setup_usb0,
  board_setup_usb1, uac_wrapper_set_sample_rate,
}
use halm_examples.Lpc43xx.System.{board_setup_bod, board_setup_button}
use halm_examples.Lpc43xx.Timing.{
  board_set_adc_timer_rate, board_setup_capture, board_setup_counter_timer_gpt,
  board_setup_counter_timer_sct, board_setup_pwm_sct, board_setup_rtc, board_setup_timer0,
  board_setup_timer3, board_setup_timer_alarm, board_setup_timer_rit, board_setup_timer_sct,
  board_setup_wdt, board_setup_wwdt, start_rtc,
}
use halm_examples.Lpc43xx.Internal.{setup-Checks_internal}
use halm_examples.Lpc43xx.Programs.{
  channel, Use, program, core_source, needs, Setup, setup, started, kept, kept_internal,
  only_reset_clock, only_ext,
}

start-Checks : Checks needs (covers_either kept kept_internal) board_setup_clock_pll from_internal
unfolding needs channel ◌>>=◌ Checks feeds_core put after_enable after_disable after_ready
    after_call fed_for_sure all_up covers covers_either board_setup_clock_pll enable_periph_clock
    both_ready load_settings start_ext spifi_from_pll start_pll board_setup_clock_pll_generic
    start_rtc
start-Checks = ground arith

setup-Checks : (x : Setup) → Checks needs (covers kept) (setup x) (known_kept kept)
unfolding needs channel ◌>>=◌ Checks feeds_core put after_enable after_disable after_ready
    after_call fed_for_sure all_up covers setup board_set_adc_timer_rate board_setup_adc
    board_setup_adc_dma board_setup_adc_one_shot board_setup_adc_stream board_setup_bod
    board_setup_button board_setup_can board_setup_capture board_setup_clock_pll_generic
    board_setup_counter_timer_gpt board_setup_counter_timer_sct board_setup_dac board_setup_dac_dma
    board_setup_eeprom board_setup_ethernet board_setup_flash board_setup_i2c0 board_setup_i2c1
    board_setup_i2c_slave0 board_setup_i2c_slave1 board_setup_i2s board_setup_memory_sram
    board_setup_pwm_sct board_setup_rtc board_setup_sdio board_setup_serial0 board_setup_serial1
    board_setup_serial2 board_setup_serial_dma0 board_setup_serial_dma1 board_setup_serial_dma2
    board_setup_spi0 board_setup_spi1 board_setup_spi_dma0 board_setup_spi_dma1 board_setup_spim
    board_setup_timer0 board_setup_timer3 board_setup_timer_alarm board_setup_timer_rit
    board_setup_timer_sct board_setup_uac_feedback board_setup_usb0 board_setup_usb1 board_setup_wdt
    board_setup_wwdt both_ready enable_periph_clock load_settings spifi_from_pll start_ext start_pll
    start_rtc uac_wrapper_set_sample_rate
setup-Checks x = ground arith

only_reset_clock-Checks :
    Checks needs (feeds_either (none) none) (program only_reset_clock) from_internal
unfolding program needs channel ◌>>=◌ Checks feeds_core put after_enable after_disable after_ready
    after_call fed_for_sure all_up feeds_either board_reset_clock enable_periph_clock both_ready
    load_settings start_ext spifi_from_pll start_pll board_setup_clock_pll_generic start_rtc
only_reset_clock-Checks = ground arith

only_ext-Checks :
    Checks needs (feeds_either (some external_osc) none) (program only_ext) from_internal
unfolding program needs channel ◌>>=◌ Checks feeds_core put after_enable after_disable after_ready
    after_call fed_for_sure all_up feeds_either board_setup_clock_ext enable_periph_clock both_ready
    load_settings start_ext spifi_from_pll start_pll board_setup_clock_pll_generic start_rtc
only_ext-Checks = ground arith

kept-Feeds : Feeds kept (some system_pll)
unfolding fed_for_sure
kept-Feeds = (refl, refl)

kept_internal-Feeds : Feeds kept_internal none
unfolding fed_for_sure
kept_internal-Feeds = (refl, refl)

-- The programs on a chip whose clocks another core may have set.
lpc43xx_program-EndsEither :
    (w : Hardware) (d : IsHardware w) (u : Use) (fuel : ℕ) (h : w.Hw)
    → d.limit < fuel
    → w.origin main_clock h ≡ none
    → EndsEither w (core_source u) none (run w needs fuel (program u) h)
unfolding program core_source
lpc43xx_program-EndsEither w d (started xs) fuel h lt e =
    setups-EndsEither w d needs setup fuel kept kept_internal (some system_pll) none
      board_setup_clock_pll lt kept-Feeds kept_internal-Feeds start-Checks setup-Checks
      setup-Checks_internal xs h e
lpc43xx_program-EndsEither w d only_reset_clock fuel h lt e =
    either_lem w d needs (none) none (program only_reset_clock) fuel h lt e only_reset_clock-Checks
lpc43xx_program-EndsEither w d only_ext fuel h lt e =
    either_lem w d needs (some external_osc) none (program only_ext) fuel h lt e only_ext-Checks

-- The question whether the settings of the clocks are there.
unfoldable pub is_load : String → Bool
is_load n = n == "loadClockSettings"
