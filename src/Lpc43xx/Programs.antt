-- ===== src/Lpc43xx/Programs.antt =====
-- What the programs of the repository do with the functions of examples/lpc43xx_default/shared/board.c.
use text.Mathlib.Text.{◌==◌}
use Prim.Native.String.{String}
use halm_examples.Base.{ℕ, zero, suc, Bool, Option, none, some, List, [], ◌∷◌, if◌then◌else◌, ◌||◌}
use halm_examples.Board.{Setting, source, number, flag, word, wire, Prog, pure, ◌>>◌, main_clock}
use halm_examples.Board.Setups.{Kept, setups}
use halm_examples.Lpc43xx.{
  apb1_clock, apb3_clock, audio_pll, divider_a, divider_c, external_osc, phy_rx_clock, phy_tx_clock,
  rtc_osc, sdio_clock, spifi_clock, ssp0_clock, ssp1_clock, system_pll, uart1_clock, usart0_clock,
  usart2_clock, usb0_clock, usb1_clock, usb_pll,
}
use halm_examples.Lpc43xx.Analog.{
  board_setup_adc, board_setup_adc_dma, board_setup_adc_one_shot, board_setup_adc_stream,
  board_setup_dac, board_setup_dac_dma,
}
use halm_examples.Lpc43xx.Bus.{
  board_setup_can, board_setup_ethernet, board_setup_i2c0, board_setup_i2c1, board_setup_i2c_slave0,
  board_setup_i2c_slave1, board_setup_i2s, board_setup_spi0, board_setup_spi1, board_setup_spi_dma0,
  board_setup_spi_dma1,
}
use halm_examples.Lpc43xx.Clock.{board_reset_clock, board_setup_clock_ext, board_setup_clock_pll}
use halm_examples.Lpc43xx.Memory.{
  board_setup_eeprom, board_setup_flash, board_setup_memory_sram, board_setup_sdio,
  board_setup_spim,
}
use halm_examples.Lpc43xx.Serial.{
  board_setup_serial0, board_setup_serial1, board_setup_serial2, board_setup_serial_dma0,
  board_setup_serial_dma1, board_setup_serial_dma2, board_setup_uac_feedback, board_setup_usb0,
  board_setup_usb1, uac_wrapper_set_sample_rate,
}
use halm_examples.Lpc43xx.System.{board_setup_bod, board_setup_button}
use halm_examples.Lpc43xx.Timing.{
  board_set_adc_timer_rate, board_setup_capture, board_setup_counter_timer_gpt,
  board_setup_counter_timer_sct, board_setup_pwm_sct, board_setup_rtc, board_setup_timer0,
  board_setup_timer3, board_setup_timer_alarm, board_setup_timer_rit, board_setup_timer_sct,
  board_setup_wdt, board_setup_wwdt,
}

-- What is set up once the clocks run, but for SDRAM, which is in Sdram.
pub data Setup : Type 0 where
  adc adc_dma adc_one_shot adc_stream bod button capture counter_timer_gpt counter_timer_sct dac
        dac_dma eeprom flash i2c0 i2c1 i2c_slave0 i2c_slave1 i2s memory_sram serial0 serial1 serial2
        serial_dma0 serial_dma1 serial_dma2 spi0 spi1 spi_dma0 spi_dma1 timer0 timer3 timer_alarm
        timer_rit timer_sct usb0 usb1 wwdt uac_feedback :
      Setup
  adc_timer_rate : ℕ → ℕ → ℕ → Setup
  pwm_sct : Bool → Setup
  sdio : Bool → ℕ → Setup
  wdt : Bool → Setup
  can : ℕ → Setup
  ethernet : ℕ → ℕ → ℕ → Setup
  spim : ℕ → Setup
  rtc : Bool → Setup
  uac_sample_rate : ℕ → ℕ → Setup

unfoldable pub setup : Setup → Prog (List ℕ)
setup (adc_timer_rate x y z) = board_set_adc_timer_rate x y z >> pure []
setup adc = board_setup_adc
setup adc_dma = board_setup_adc_dma
setup adc_one_shot = board_setup_adc_one_shot
setup adc_stream = board_setup_adc_stream
setup bod = board_setup_bod
setup button = board_setup_button
setup capture = board_setup_capture
setup counter_timer_gpt = board_setup_counter_timer_gpt
setup counter_timer_sct = board_setup_counter_timer_sct
setup dac = board_setup_dac
setup dac_dma = board_setup_dac_dma
setup eeprom = board_setup_eeprom
setup flash = board_setup_flash
setup i2c0 = board_setup_i2c0
setup i2c1 = board_setup_i2c1
setup i2c_slave0 = board_setup_i2c_slave0
setup i2c_slave1 = board_setup_i2c_slave1
setup i2s = board_setup_i2s
setup memory_sram = board_setup_memory_sram
setup (pwm_sct x) = board_setup_pwm_sct x
setup (sdio x y) = board_setup_sdio x y
setup serial0 = board_setup_serial0
setup serial1 = board_setup_serial1
setup serial2 = board_setup_serial2
setup serial_dma0 = board_setup_serial_dma0
setup serial_dma1 = board_setup_serial_dma1
setup serial_dma2 = board_setup_serial_dma2
setup spi0 = board_setup_spi0
setup spi1 = board_setup_spi1
setup spi_dma0 = board_setup_spi_dma0
setup spi_dma1 = board_setup_spi_dma1
setup timer0 = board_setup_timer0
setup timer3 = board_setup_timer3
setup timer_alarm = board_setup_timer_alarm
setup timer_rit = board_setup_timer_rit
setup timer_sct = board_setup_timer_sct
setup usb0 = board_setup_usb0
setup usb1 = board_setup_usb1
setup (wdt x) = board_setup_wdt x
setup wwdt = board_setup_wwdt
setup (can x) = board_setup_can x
setup (ethernet x y z) = board_setup_ethernet x y z
setup (spim x) = board_setup_spim x
setup (rtc x) = board_setup_rtc x
setup uac_feedback = board_setup_uac_feedback
setup (uac_sample_rate x y) = uac_wrapper_set_sample_rate x y >> pure []

-- The uses that programs make of the file: the clocks only, or any setups after the start of the PLL.
pub data Use : Type 0 where
  started : List Setup → Use
  only_reset_clock only_ext : Use

unfoldable pub program : Use → Prog (List ℕ)
program (started xs) = board_setup_clock_pll >> setups setup xs
program only_reset_clock = board_reset_clock >> pure []
program only_ext = board_setup_clock_ext >> pure []

-- The clock of the core at the end.
unfoldable pub core_source : Use → Option ℕ
core_source (started xs) = some system_pll
core_source only_reset_clock = none
core_source only_ext = some external_osc

-- What the setups keep of the start of the PLL.
abbrev pub kept : Kept
kept = record {
  ups = external_osc ∷ system_pll ∷ [];
  inputs =
      (main_clock, some system_pll) ∷ (system_pll, some external_osc) ∷ (external_osc, none) ∷ [];
}

-- The same where an earlier program has started the clocks but for that of the core.
abbrev pub kept_internal : Kept
kept_internal = record { ups = external_osc ∷ system_pll ∷ []; inputs = (main_clock, none) ∷ [] }

-- The channel that an object gets.
unfoldable pub channel : List Setting → ℕ
channel [] = 0
channel (source o ∷ s) = channel s
channel (number m k ∷ s) = let rest = channel s in if m == "channel" then k else rest
channel (flag m b ∷ s) = channel s
channel (word m v ∷ s) = channel s
channel (wire m p ∷ s) = channel s

-- The clocks by the channel.
abbrev pub by_channel : ℕ → List ℕ → List ℕ → List ℕ → List ℕ
by_channel zero a b c = a
by_channel (suc zero) a b c = b
by_channel (suc (suc n)) a b c = c

-- The clocks that must be ready when an object of the class is made: those of the file that feed it.
-- The clock of SPIFI is in `feeds`.
unfoldable pub needs : String → List Setting → List ℕ
needs n s =
    if n == "Adc" || n == "AdcDma" || n == "AdcOneShot" || n == "AdcDmaStream"
    then apb3_clock ∷ []
    else if n == "Dac" || n == "DacDma"
    then apb3_clock ∷ []
    else if n == "Atimer" || n == "Rtc"
    then rtc_osc ∷ []
    else if n == "Sdmmc"
    then divider_c ∷ sdio_clock ∷ []
    else if n == "Can"
    then apb3_clock ∷ audio_pll ∷ divider_a ∷ []
    else if n == "Ethernet"
    then phy_rx_clock ∷ phy_tx_clock ∷ []
    else if n == "I2SDma"
    then apb1_clock ∷ []
    else if n == "I2C" || n == "I2CSlave"
    then by_channel (channel s) (apb1_clock ∷ []) (apb3_clock ∷ []) []
    else if n == "Spi" || n == "SpiDma"
    then by_channel (channel s) (ssp0_clock ∷ []) (ssp1_clock ∷ []) []
    else if n == "Serial" || n == "SerialDma"
    then by_channel (channel s) (usart0_clock ∷ []) (uart1_clock ∷ []) (usart2_clock ∷ [])
    else if n == "UsbDevice"
    then by_channel (channel s) (usb_pll ∷ usb0_clock ∷ [])
        (audio_pll ∷ divider_a ∷ usb1_clock ∷ []) []
    else []

-- The clock that must have been enabled when the object of SPIFI is made: with the PLL running the
-- file does not wait for it.
unfoldable pub feeds : String → List Setting → List ℕ
feeds n s = if n == "Spifi" then spifi_clock ∷ [] else []
