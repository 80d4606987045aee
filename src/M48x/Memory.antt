-- ===== src/M48x/Memory.antt =====
-- Memories and cards of examples/m48x_default/shared/board.c.
use halm_examples.Base.{ℕ, Bool, some, List, [], ◌∷◌, if◌then◌else◌}
use halm_examples.Board.{
  source, number, word, wire, Prog, pure, ◌>>=◌, ◌>>◌, clock_enable, init, pin,
}
use halm_examples.M48x.{external_osc, qspi0_clock, sdh0_clock}

unfoldable pub board_setup_flash : Prog (List ℕ)
board_setup_flash = do
  interface_object ← init "Flash" (word "bank" "FLASH_APROM" ∷ [])
  pure (interface_object ∷ [])

unfoldable pub board_setup_flash_ldrom : Prog (List ℕ)
board_setup_flash_ldrom = do
  interface_object ← init "Flash" (word "bank" "FLASH_LDROM" ∷ [])
  pure (interface_object ∷ [])

unfoldable pub board_setup_flash_sprom : Prog (List ℕ)
board_setup_flash_sprom = do
  interface_object ← init "Flash" (word "bank" "FLASH_SPROM" ∷ [])
  pure (interface_object ∷ [])

unfoldable pub board_setup_qspi : Prog (List ℕ)
board_setup_qspi = do
  clock_enable qspi0_clock (word "source" "CLOCK_APB" ∷ [])
  interface_object ← init "Qspi" (
      number "rate" 1000000
      ∷ number "cs" 0
      ∷ wire "io0" (pin "PORT_C" "0")
      ∷ wire "io1" (pin "PORT_C" "1")
      ∷ wire "io2" (pin "PORT_C" "5")
      ∷ wire "io3" (pin "PORT_C" "4")
      ∷ wire "sck" (pin "PORT_C" "2")
      ∷ number "channel" 0
      ∷ number "mode" 0
      ∷ word "dma" "DMA0_CHANNEL0"
      ∷ word "dma" "DMA0_CHANNEL1"
      ∷ [])
  pure (interface_object ∷ [])

unfoldable pub board_setup_sdio : (wide : Bool) (timer : ℕ) → Prog (List ℕ)
board_setup_sdio wide timer = do
  clock_enable sdh0_clock (source (some external_osc) ∷ [])
  interface_object ← init "Sdh" (
      if wide
      then number "timer" timer
        ∷ number "rate" 1000000
        ∷ wire "clk" (pin "PORT_E" "6")
        ∷ wire "cmd" (pin "PORT_E" "7")
        ∷ wire "dat0" (pin "PORT_E" "2")
        ∷ wire "dat1" (pin "PORT_E" "3")
        ∷ wire "dat2" (pin "PORT_B" "4")
        ∷ wire "dat3" (pin "PORT_B" "5")
        ∷ word "speed" "PIN_SLEW_FAST"
        ∷ number "channel" 0
        ∷ []
      else number "timer" timer
        ∷ number "rate" 1000000
        ∷ wire "clk" (pin "PORT_E" "6")
        ∷ wire "cmd" (pin "PORT_E" "7")
        ∷ wire "dat0" (pin "PORT_E" "2")
        ∷ word "speed" "PIN_SLEW_FAST"
        ∷ number "channel" 0
        ∷ [])
  pure (interface_object ∷ [])

unfoldable pub board_setup_spim : (timer : ℕ) → Prog (List ℕ)
board_setup_spim timer = do
  interface_object ← init "Spim" (
      number "timer" timer
      ∷ number "rate" 2000000
      ∷ wire "cs" (pin "PORT_C" "3")
      ∷ wire "io0" (pin "PORT_C" "0")
      ∷ wire "io1" (pin "PORT_C" "1")
      ∷ wire "io2" (pin "PORT_C" "5")
      ∷ wire "io3" (pin "PORT_C" "4")
      ∷ wire "sck" (pin "PORT_C" "2")
      ∷ word "speed" "PIN_SLEW_FAST"
      ∷ number "channel" 0
      ∷ [])
  pure (interface_object ∷ [])
