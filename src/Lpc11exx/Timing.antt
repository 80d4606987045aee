-- ===== src/Lpc11exx/Timing.antt =====
-- Timers and watchdogs of examples/lpc11exx_default/shared/board.c.
use halm_examples.Base.{ℕ, List, [], ◌∷◌}
use halm_examples.Board.{number, word, Prog, pure, ◌>>=◌, init}

unfoldable pub board_setup_timer : Prog (List ℕ)
board_setup_timer = do
  timer ← init "GpTimer" (
      number "frequency" 1000000
      ∷ word "event" "GPTIMER_MATCH0"
      ∷ word "channel" "GPTIMER_CT32B1"
      ∷ [])
  pure (timer ∷ [])
