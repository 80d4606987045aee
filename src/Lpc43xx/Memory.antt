-- ===== src/Lpc43xx/Memory.antt =====
-- Memories and cards of examples/lpc43xx_default/shared/board.c.
use halm_examples.Base.{ltb, ℕ, Bool, true, false, none, some, List, [], ◌∷◌, if◌then◌else◌}
use halm_examples.Board.{
  source, number, flag, word, wire, Prog, pure, ◌>>=◌, ◌>>◌, clock_enable, clock_ready,
  clock_frequency, wait_ready, init, assert, when, pin, main_clock,
}
use halm_examples.Lpc43xx.{system_pll, external_osc, divider_c, sdio_clock, spifi_clock}
use halm_examples.Lpc43xx.Clock.{spifi_from_pll, board_setup_clock_pll_custom}

-- 30 MHz is the limit that the source sets for SPIFI.
unfoldable pub board_setup_spim : (timer : ℕ) → Prog (List ℕ)
board_setup_spim _ = do
  pll_up ← clock_ready system_pll
  if pll_up then spifi_from_pll else (do
    osc_up ← clock_ready external_osc
    if osc_up
        then clock_enable spifi_clock (source (some external_osc) ∷ [])
        else clock_enable spifi_clock (source none ∷ [])
    wait_ready spifi_clock)
  interface_object ← init "Spifi" (
      wire "cs" (pin "PORT_3" "8")
      ∷ wire "io0" (pin "PORT_3" "7")
      ∷ wire "io1" (pin "PORT_3" "6")
      ∷ wire "io2" (pin "PORT_3" "5")
      ∷ wire "io3" (pin "PORT_3" "4")
      ∷ wire "sck" (pin "PORT_3" "3")
      ∷ number "channel" 0
      ∷ number "mode" 0
      ∷ number "dma" 0
      ∷ [])
  pure (interface_object ∷ [])

unfoldable pub board_setup_memory_sdram : (count_leading_zeros : ℕ → ℕ) → Prog (List ℕ)
board_setup_memory_sdram count_leading_zeros = do
  rate ← clock_frequency main_clock
  when (ltb 96000000 rate) (board_setup_clock_pll_custom count_leading_zeros 96000000)
  memory ← init "EmcSdram" (
      number "timings.refresh" 15625
      ∷ number "timings.apr" 34
      ∷ number "timings.mrd" 20
      ∷ number "timings.ras" 42
      ∷ number "timings.rc" 70
      ∷ number "timings.rp" 20
      ∷ number "timings.rrd" 14
      ∷ number "timings.wr" 14
      ∷ number "timings.xsr" 70
      ∷ number "width.bus" 32
      ∷ number "width.device" 32
      ∷ flag "clocks" true
      ∷ flag "clocks" false
      ∷ flag "clocks" true
      ∷ flag "clocks" false
      ∷ word "speed" "PIN_SLEW_FAST"
      ∷ number "channel" 0
      ∷ number "latency" 2
      ∷ number "banks" 4
      ∷ number "columns" 9
      ∷ number "rows" 12
      ∷ [])
  pure (memory ∷ [])

unfoldable pub board_setup_eeprom : Prog (List ℕ)
board_setup_eeprom = do interface_object ← init "Eeprom" []; pure (interface_object ∷ [])

unfoldable pub board_setup_flash : Prog (List ℕ)
board_setup_flash = do
  interface_object ← init "Flash" (word "bank" "FLASH_BANK_A" ∷ [])
  pure (interface_object ∷ [])

unfoldable pub board_setup_memory_sram : Prog (List ℕ)
board_setup_memory_sram = do
  memory ← init "EmcSram" (
      number "timings.oe" 0
      ∷ number "timings.rd" 70
      ∷ number "timings.we" 30
      ∷ number "timings.wr" 70
      ∷ number "width.address" 23
      ∷ number "width.data" 16
      ∷ word "speed" "PIN_SLEW_FAST"
      ∷ number "channel" 0
      ∷ flag "buffering" true
      ∷ flag "useWriteEnable" true
      ∷ [])
  pure (memory ∷ [])

unfoldable pub board_setup_sdio : (wide : Bool) (timer : ℕ) → Prog (List ℕ)
board_setup_sdio wide timer = do
  system_pll_up ← clock_ready system_pll
  assert system_pll_up
  clock_enable divider_c (number "divisor" 4 ∷ source (some system_pll) ∷ [])
  wait_ready divider_c
  clock_enable sdio_clock (source (some divider_c) ∷ [])
  wait_ready sdio_clock
  interface_object ← init "Sdmmc" (
      if wide
      then number "timer" timer
        ∷ number "rate" 1000000
        ∷ wire "clk" (pin "PORT_CLK" "0")
        ∷ wire "cmd" (pin "PORT_1" "6")
        ∷ wire "dat0" (pin "PORT_1" "9")
        ∷ wire "dat1" (pin "PORT_1" "10")
        ∷ wire "dat2" (pin "PORT_1" "11")
        ∷ wire "dat3" (pin "PORT_1" "12")
        ∷ word "speed" "PIN_SLEW_FAST"
        ∷ []
      else number "timer" timer
        ∷ number "rate" 1000000
        ∷ wire "clk" (pin "PORT_CLK" "0")
        ∷ wire "cmd" (pin "PORT_1" "6")
        ∷ wire "dat0" (pin "PORT_1" "9")
        ∷ word "speed" "PIN_SLEW_FAST"
        ∷ [])
  pure (interface_object ∷ [])
