-- ===== src/Lpc17xx/System.antt =====
-- Interrupts and queues of examples/lpc17xx_default/shared/board.c.
use halm_examples.Base.{ℕ, List, [], ◌∷◌}
use halm_examples.Board.{number, word, wire, Prog, pure, ◌>>=◌, init, pin}

unfoldable pub board_setup_low_priority_wq : Prog Unit
board_setup_low_priority_wq = do
  wq_lp ← init "WorkQueueIrq" (number "size" 4 ∷ word "irq" "SPI_IRQ" ∷ number "priority" 0 ∷ [])
  pure tt

unfoldable pub board_setup_bod : Prog (List ℕ)
board_setup_bod = do
  interrupt ←
      init "Bod" (word "eventLevel" "BOD_EVENT_2V2" ∷ word "resetLevel" "BOD_RESET_DISABLED" ∷ [])
  pure (interrupt ∷ [])

unfoldable pub board_setup_button : Prog (List ℕ)
board_setup_button = do
  interrupt ←
      init "PinInt"
        (wire "pin" (pin "2" "10") ∷ word "event" "INPUT_FALLING" ∷ word "pull" "PIN_PULLUP" ∷ [])
  pure (interrupt ∷ [])
