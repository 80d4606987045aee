-- ===== src/Lpc13uxx/System.antt =====
-- Interrupts and queues of examples/lpc13uxx_default/shared/board.c.
use halm_examples.Base.{ℕ, List, [], ◌∷◌}
use halm_examples.Board.{word, wire, Prog, pure, ◌>>=◌, init, pin}

unfoldable pub board_setup_bod : Prog (List ℕ)
board_setup_bod = do
  interrupt ←
      init "Bod" (word "eventLevel" "BOD_EVENT_2V80" ∷ word "resetLevel" "BOD_RESET_DISABLED" ∷ [])
  pure (interrupt ∷ [])

unfoldable pub board_setup_button : Prog (List ℕ)
board_setup_button = do
  interrupt ←
      init "PinInt"
        (wire "pin" (pin "0" "3") ∷ word "event" "INPUT_FALLING" ∷ word "pull" "PIN_PULLUP" ∷ [])
  pure (interrupt ∷ [])
