-- ===== src/Bl602/Waits.antt =====
-- The loop of boardSetupI2C of examples/bl602_default/shared/board.c, which waits for the clock of
-- the UART.
use Prim.Native.String.{String}
use halm_examples.Base.{ℕ, zero, suc, ◌≡◌, ◌≢◌, Bool, false, List, [], ◌∷◌, Bool-cases, inl, inr}
use halm_examples.Board.{Setting, number, word, Hardware, Outcome, done, wait, run, is_safe, ◌>>=◌}
use halm_examples.Board.Laws.{passes}
use halm_examples.Bl602.{i2c_clock, uart_clock}
use halm_examples.Bl602.Bus.{board_setup_i2c}

module _ (w : Hardware) where
  open w use {Hw, is_ready, enable_clock, pass}

  wait-done :
      {A : Type 0} (fuel : ℕ) (test : Hw → Bool) (go : Hw → Outcome A Hw) (h : Hw)
      → ((n : ℕ) → test (passes w n h) ≡ false)
      → (a : A) (h' : Hw) → wait w fuel test go h ≢ done a h'
  unfolding wait passes
  wait-done zero test go h never a h' = λ e. absurd (cc)
  wait-done (suc fuel) test go h never a h' =
      rw (never 0, wait)
        (elim (Bool-cases (is_safe w (pass h))) [
          | inl fine ↦ rw fine (wait-done fuel test go (pass h) (λ n. never (suc n)) a h')
          | inr lost ↦ rw lost λ e. absurd (cc)
        ])

  -- Where the clock of the UART does not become ready after the clock of I2C has been enabled,
  -- boardSetupI2C does not return, however many passes its loop has.
  pub board_setup_i2c-done :
      (needs : String → List Setting → List ℕ) (fuel : ℕ) (h : Hw)
      → ((n : ℕ)
          → is_ready uart_clock (
              passes w n (
                enable_clock i2c_clock (number "divisor" 10 ∷ word "source" "CLOCK_SYSTEM" ∷ []) h))
            ≡ false)
      → (a : List ℕ) (h' : Hw) → run w needs fuel board_setup_i2c h ≢ done a h'
  unfolding run board_setup_i2c ◌>>=◌
  board_setup_i2c-done needs fuel h never a h' =
      let enabled =
        enable_clock i2c_clock (number "divisor" 10 ∷ word "source" "CLOCK_SYSTEM" ∷ []) h in
      elim (Bool-cases (is_safe w enabled)) [
        | inl fine ↦ rw fine (wait-done fuel (is_ready uart_clock) _ enabled never a h')
        | inr lost ↦ rw lost λ e. absurd (cc)
      ]
