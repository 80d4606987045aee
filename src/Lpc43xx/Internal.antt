-- ===== src/Lpc43xx/Internal.antt =====
-- The setups of the board where the core runs from its own oscillator.
use native.Mathlib.Omega.{arith}
use halm_examples.Board.{◌>>=◌}
use halm_examples.Board.Known.{
  Checks, put, after_enable, after_disable, after_ready, after_call, fed_for_sure, all_up,
}
use halm_examples.Board.Safe.{feeds_core}
use halm_examples.Board.Setups.{known_kept, covers}
use halm_examples.Lpc43xx.Analog.{
  board_setup_adc, board_setup_adc_dma, board_setup_adc_one_shot, board_setup_adc_stream,
  board_setup_dac, board_setup_dac_dma,
}
use halm_examples.Lpc43xx.Bus.{
  board_setup_can, board_setup_ethernet, board_setup_i2c0, board_setup_i2c1, board_setup_i2c_slave0,
  board_setup_i2c_slave1, board_setup_i2s, board_setup_spi0, board_setup_spi1, board_setup_spi_dma0,
  board_setup_spi_dma1,
}
use halm_examples.Lpc43xx.Clock.{
  board_setup_clock_pll_generic, both_ready, enable_periph_clock, load_settings, spifi_from_pll,
  start_ext, start_pll,
}
use halm_examples.Lpc43xx.Memory.{
  board_setup_eeprom, board_setup_flash, board_setup_memory_sram, board_setup_sdio,
  board_setup_spim,
}
use halm_examples.Lpc43xx.Serial.{
  board_setup_serial0, board_setup_serial1, board_setup_serial2, board_setup_serial_dma0,
  board_setup_serial_dma1, board_setup_serial_dma2, board_setup_uac_feedback, board_setup_usb0,
  board_setup_usb1, uac_wrapper_set_sample_rate,
}
use halm_examples.Lpc43xx.System.{board_setup_bod, board_setup_button}
use halm_examples.Lpc43xx.Timing.{
  board_set_adc_timer_rate, board_setup_capture, board_setup_counter_timer_gpt,
  board_setup_counter_timer_sct, board_setup_pwm_sct, board_setup_rtc, board_setup_timer0,
  board_setup_timer3, board_setup_timer_alarm, board_setup_timer_rit, board_setup_timer_sct,
  board_setup_wdt, board_setup_wwdt, start_rtc,
}
use halm_examples.Lpc43xx.Programs.{
  channel, needs, Setup, setup, kept_internal, adc_timer_rate, adc, adc_dma, adc_one_shot,
  adc_stream, bod, button, capture, counter_timer_gpt, counter_timer_sct, dac, dac_dma, eeprom,
  flash, i2c0, i2c1, i2c_slave0, i2c_slave1, i2s, memory_sram, pwm_sct, sdio, serial0, serial1,
  serial2, serial_dma0, serial_dma1, serial_dma2, spi0, spi1, spi_dma0, spi_dma1, timer0, timer3,
  timer_alarm, timer_rit, timer_sct, usb0, usb1, wdt, wwdt, can, ethernet, spim, rtc, uac_feedback,
  uac_sample_rate,
}

pub setup-Checks_internal :
    (x : Setup) → Checks needs (covers kept_internal) (setup x) (known_kept kept_internal)
unfolding needs channel ◌>>=◌ Checks feeds_core put after_enable after_disable after_ready
    after_call fed_for_sure all_up covers setup board_set_adc_timer_rate board_setup_adc
    board_setup_adc_dma board_setup_adc_one_shot board_setup_adc_stream board_setup_bod
    board_setup_button board_setup_can board_setup_capture board_setup_clock_pll_generic
    board_setup_counter_timer_gpt board_setup_counter_timer_sct board_setup_dac board_setup_dac_dma
    board_setup_eeprom board_setup_ethernet board_setup_flash board_setup_i2c0 board_setup_i2c1
    board_setup_i2c_slave0 board_setup_i2c_slave1 board_setup_i2s board_setup_memory_sram
    board_setup_pwm_sct board_setup_rtc board_setup_sdio board_setup_serial0 board_setup_serial1
    board_setup_serial2 board_setup_serial_dma0 board_setup_serial_dma1 board_setup_serial_dma2
    board_setup_spi0 board_setup_spi1 board_setup_spi_dma0 board_setup_spi_dma1 board_setup_spim
    board_setup_timer0 board_setup_timer3 board_setup_timer_alarm board_setup_timer_rit
    board_setup_timer_sct board_setup_uac_feedback board_setup_usb0 board_setup_usb1 board_setup_wdt
    board_setup_wwdt both_ready enable_periph_clock load_settings spifi_from_pll start_ext start_pll
    start_rtc uac_wrapper_set_sample_rate
setup-Checks_internal (adc_timer_rate x y z) = ground arith
setup-Checks_internal adc = ground arith
setup-Checks_internal adc_dma = ground arith
setup-Checks_internal adc_one_shot = ground arith
setup-Checks_internal adc_stream = ground arith
setup-Checks_internal bod = ground arith
setup-Checks_internal button = ground arith
setup-Checks_internal capture = ground arith
setup-Checks_internal counter_timer_gpt = ground arith
setup-Checks_internal counter_timer_sct = ground arith
setup-Checks_internal dac = ground arith
setup-Checks_internal dac_dma = ground arith
setup-Checks_internal eeprom = ground arith
setup-Checks_internal flash = ground arith
setup-Checks_internal i2c0 = ground arith
setup-Checks_internal i2c1 = ground arith
setup-Checks_internal i2c_slave0 = ground arith
setup-Checks_internal i2c_slave1 = ground arith
setup-Checks_internal i2s = ground arith
setup-Checks_internal memory_sram = ground arith
setup-Checks_internal (pwm_sct x) = ground arith
setup-Checks_internal (sdio x y) = ground arith
setup-Checks_internal serial0 = ground arith
setup-Checks_internal serial1 = ground arith
setup-Checks_internal serial2 = ground arith
setup-Checks_internal serial_dma0 = ground arith
setup-Checks_internal serial_dma1 = ground arith
setup-Checks_internal serial_dma2 = ground arith
setup-Checks_internal spi0 = ground arith
setup-Checks_internal spi1 = ground arith
setup-Checks_internal spi_dma0 = ground arith
setup-Checks_internal spi_dma1 = ground arith
setup-Checks_internal timer0 = ground arith
setup-Checks_internal timer3 = ground arith
setup-Checks_internal timer_alarm = ground arith
setup-Checks_internal timer_rit = ground arith
setup-Checks_internal timer_sct = ground arith
setup-Checks_internal usb0 = ground arith
setup-Checks_internal usb1 = ground arith
setup-Checks_internal (wdt x) = ground arith
setup-Checks_internal wwdt = ground arith
setup-Checks_internal (can x) = ground arith
setup-Checks_internal (ethernet x y z) = ground arith
setup-Checks_internal (spim x) = ground arith
setup-Checks_internal (rtc x) = ground arith
setup-Checks_internal uac_feedback = ground arith
setup-Checks_internal (uac_sample_rate x y) = ground arith
