-- ===== src/Lpc17xxTrace/Timing.antt =====
-- Timers and watchdogs of examples/lpc17xx_trace/shared/board.c.
use halm_examples.Base.{ℕ, List, [], ◌∷◌}
use halm_examples.Board.{number, word, Prog, pure, ◌>>=◌, init}

unfoldable pub board_setup_timer0 : Prog (List ℕ)
board_setup_timer0 = do
  timer ←
      init "GpTimer"
        (number "frequency" 1000000 ∷ word "event" "GPTIMER_MATCH0" ∷ number "channel" 0 ∷ [])
  pure (timer ∷ [])

unfoldable pub board_setup_timer1 : Prog (List ℕ)
board_setup_timer1 = do
  timer ←
      init "GpTimer"
        (number "frequency" 1000000 ∷ word "event" "GPTIMER_MATCH1" ∷ number "channel" 1 ∷ [])
  pure (timer ∷ [])

unfoldable pub board_setup_timer2 : Prog (List ℕ)
board_setup_timer2 = do
  timer ←
      init "GpTimer"
        (number "frequency" 1000000 ∷ word "event" "GPTIMER_MATCH0" ∷ number "channel" 2 ∷ [])
  pure (timer ∷ [])
