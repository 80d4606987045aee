-- ===== src/Stm32f1xx/System.antt =====
-- Interrupts and queues of examples/stm32f1xx_default/shared/board.c.
use halm_examples.Base.{ℕ, List, [], ◌∷◌}
use halm_examples.Board.{number, word, wire, Prog, pure, ◌>>=◌, init, pin}

unfoldable pub board_setup_low_priority_wq : Prog Unit
board_setup_low_priority_wq = do
  wq_lp ← init "WorkQueueIrq" (number "size" 4 ∷ word "irq" "FLASH_IRQ" ∷ number "priority" 0 ∷ [])
  pure tt

unfoldable pub board_setup_button : Prog (List ℕ)
board_setup_button = do
  interrupt ←
      init "Exti" (
        wire "pin" (pin "PORT_A" "0")
        ∷ word "event" "INPUT_FALLING"
        ∷ word "pull" "PIN_PULLUP"
        ∷ [])
  pure (interrupt ∷ [])
