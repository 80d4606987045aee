-- ===== src/Lpc17xx/Memory.antt =====
-- Memories and cards of examples/lpc17xx_default/shared/board.c.
use halm_examples.Base.{leb, ℕ, ◌*◌, ◌/◌, Bool, Option, none, some, List, [], ◌∷◌}
use halm_examples.Board.{
  object_of, Setting, number, word, wire, Prog, pure, ◌>>=◌, ◌>>◌, init, number_of, perform, assert,
  pin,
}
use halm_examples.Lpc17xx.System.{board_setup_low_priority_wq}
use halm_examples.Lpc17xx.Bus.{board_setup_spi_dma0}

-- The field `timer`, which may be null.
abbrev pub if_timer : Option ℕ → Setting
if_timer none = word "timer" "nullptr"
if_timer (some timer) = number "timer" timer

unfoldable pub set_poll_rate : (timer : Option ℕ) → Prog Unit
set_poll_rate none = pure tt
set_poll_rate (some timer) = do
  frequency ← number_of "timerGetFrequency" timer
  assert (leb (10 * 5000) frequency)
  frequency_again ← number_of "timerGetFrequency" timer
  perform "timerSetOverflow"
      (number "timer" timer ∷ number "overflow" (frequency_again / 5000) ∷ [])

-- Mode 3 of SPI; 64 blocks are the RAM size of 32 KiB by the block size of 512 bytes.
unfoldable pub board_setup_sdio : (_ : Bool) (timer : Option ℕ) → Prog (List ℕ)
board_setup_sdio _ timer = do
  set_poll_rate timer
  board_setup_low_priority_wq
  perform "wqStart" (word "wq" "WQ_LP" ∷ [])
  spi ← board_setup_spi_dma0
  result ←
      init "ifSetParam" (
        number "interface" (object_of spi) ∷ word "parameter" "IF_SPI_MODE" ∷ number "value" 3 ∷ [])
  sdio ← init "SdioSpi" (
      number "interface" (object_of spi)
      ∷ (if_timer timer)
      ∷ word "wq" "WQ_LP"
      ∷ number "blocks" 64
      ∷ wire "cs" (pin "0" "22")
      ∷ [])
  pure (sdio ∷ [])

unfoldable pub board_setup_flash : Prog (List ℕ)
board_setup_flash = do interface_object ← init "Flash" []; pure (interface_object ∷ [])
