-- ===== src/Stm32f4xx/Memory.antt =====
-- Memories and cards of examples/stm32f4xx_default/shared/board.c.
use halm_examples.Base.{ℕ, Bool, true, List, [], ◌∷◌, if◌then◌else◌}
use halm_examples.Board.{number, flag, word, wire, Prog, pure, ◌>>=◌, init, pin}

unfoldable pub board_setup_flash : Prog (List ℕ)
board_setup_flash = do
  interface_object ← init "Flash" (word "voltage" "VR_2V7_3V6" ∷ [])
  pure (interface_object ∷ [])

unfoldable pub board_setup_memory_sram : Prog (List ℕ)
board_setup_memory_sram = do
  memory ← init "FsmcSram" (
      number "timings.oe" 0
      ∷ number "timings.rd" 70
      ∷ number "timings.we" 30
      ∷ number "timings.wr" 70
      ∷ number "width.address" 19
      ∷ number "width.data" 16
      ∷ word "speed" "PIN_SLEW_FAST"
      ∷ number "subbank" 2
      ∷ flag "useWriteEnable" true
      ∷ [])
  pure (memory ∷ [])

unfoldable pub board_setup_sdio : (wide : Bool) (timer : ℕ) → Prog (List ℕ)
board_setup_sdio wide timer = do
  interface_object ← init "Sdio" (
      if wide
      then number "timer" timer
        ∷ number "rate" 1000000
        ∷ wire "clk" (pin "PORT_C" "12")
        ∷ wire "cmd" (pin "PORT_D" "2")
        ∷ wire "dat0" (pin "PORT_C" "8")
        ∷ wire "dat1" (pin "PORT_C" "9")
        ∷ wire "dat2" (pin "PORT_C" "10")
        ∷ wire "dat3" (pin "PORT_C" "11")
        ∷ word "speed" "PIN_SLEW_FAST"
        ∷ word "dma.priority" "DMA_PRIORITY_HIGH"
        ∷ word "dma.stream" "DMA2_STREAM3"
        ∷ []
      else number "timer" timer
        ∷ number "rate" 1000000
        ∷ wire "clk" (pin "PORT_C" "12")
        ∷ wire "cmd" (pin "PORT_D" "2")
        ∷ wire "dat0" (pin "PORT_C" "8")
        ∷ word "speed" "PIN_SLEW_FAST"
        ∷ word "dma.priority" "DMA_PRIORITY_LOW"
        ∷ word "dma.stream" "DMA2_STREAM3"
        ∷ [])
  pure (interface_object ∷ [])
