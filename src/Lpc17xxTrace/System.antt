-- ===== src/Lpc17xxTrace/System.antt =====
-- Interrupts and queues of examples/lpc17xx_trace/shared/board.c.
use halm_examples.Base.{[], ◌∷◌}
use halm_examples.Board.{number, word, Prog, pure, ◌>>=◌, init}

unfoldable pub board_setup_low_priority_wq : Prog Unit
board_setup_low_priority_wq = do
  wq_lp ← init "WorkQueueIrq" (number "size" 4 ∷ word "irq" "SPI_IRQ" ∷ number "priority" 0 ∷ [])
  pure tt
