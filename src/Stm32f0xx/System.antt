-- ===== src/Stm32f0xx/System.antt =====
-- Interrupts and queues of examples/stm32f0xx_default/shared/board.c.
use halm_examples.Base.{ℕ, List, [], ◌∷◌}
use halm_examples.Board.{word, wire, Prog, pure, ◌>>=◌, init, pin}

unfoldable pub board_setup_button : Prog (List ℕ)
board_setup_button = do
  interrupt ←
      init "Exti" (
        wire "pin" (pin "PORT_A" "0")
        ∷ word "event" "INPUT_FALLING"
        ∷ word "pull" "PIN_PULLUP"
        ∷ [])
  pure (interrupt ∷ [])
