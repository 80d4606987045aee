-- ===== src/Bl602/Timing.antt =====
-- Timers and watchdogs of examples/bl602_default/shared/board.c.
use halm_examples.Base.{suc, leb, ℕ, Bool, false, List, [], ◌∷◌, if◌then◌else◌}
use halm_examples.Board.{Pin, number, flag, word, wire, Prog, pure, ◌>>=◌, init, pin}

-- The loop over `pwmTimerConfigs` and `pwmOutputConfigs` from the index `i` on.
unfoldable pub pwm_loop : (i : ℕ) → List (ℕ × Pin) → Prog (List ℕ)
pwm_loop i [] = pure []
pwm_loop i ((channel, output) ∷ rest) = do
  timer ←
      init "PwmUnit"
        (number "frequency" 1000000 ∷ number "resolution" 20000 ∷ number "channel" channel ∷ [])
  output_object ←
      init (if leb 2 i then "pwmCreateDoubleEdge" else "pwmCreate")
        (number "timer" timer ∷ wire "argument" output ∷ flag "argument" false ∷ [])
  others ← pwm_loop (suc i) rest
  pure (timer ∷ output_object ∷ others)

unfoldable pub board_setup_pwm : (_ : Bool) → Prog (List ℕ)
board_setup_pwm _ = pwm_loop 0 ((4, pin "0" "4") ∷ (3, pin "0" "3") ∷ (1, pin "0" "16") ∷ [])

unfoldable pub board_setup_timer : Prog (List ℕ)
board_setup_timer = do
  timer ← init "GpTimer" (number "frequency" 1000000 ∷ word "channel" "TIM2" ∷ [])
  pure (timer ∷ [])

unfoldable pub board_setup_timer64 : Prog (List ℕ)
board_setup_timer64 = do timer ← init "MachineTimer64" []; pure (timer ∷ [])
