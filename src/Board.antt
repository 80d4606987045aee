-- ===== src/Board.antt =====
-- The language of the files board.c in examples/*/shared: a function there is a chain of calls of
-- the HALM library, with the clocks as the library's classes and configurations as lists of
-- fields. A program of this module says what a function calls, in which order, and how it goes on
-- with the answers.
pub mod Known
pub mod Laws
pub mod Holds
pub mod Sound
pub mod Safe
pub mod Sequence
pub mod Setups
pub mod Enabled
pub mod Answers
pub mod Sample
use Prim.Native.String.{String}
use text.Mathlib.Text.{◌==◌}
use halm_examples.Base.{
  ℕ, zero, suc, Bool, true, false, not, ◌&&◌, ◌||◌, Option, none, some, List, [], ◌∷◌,
  if◌then◌else◌,
}

-- `PIN(port, line)`, by the words of the source.
pub record Pin : Type 0 where
  pub port : String
  pub line : String

-- A field of a configuration, by its name. A clock takes its input from another clock; no clock
-- stands for an oscillator of its own.
pub data Setting : Type 0 where
  source : Option ℕ → Setting
  number : String → ℕ → Setting
  flag : String → Bool → Setting
  word : String → String → Setting
  wire : String → Pin → Setting

-- Each call, with what follows it. A call of `create` stands for `init` or a function like it with
-- the assertion that its result is not null; `stop` is an assertion that fails.
pub data Prog (A : Type 0) : Type 0 where
  pure : A → Prog A
  stop : Prog A
  enable : (clock : ℕ) → List Setting → Prog A → Prog A
  disable : (clock : ℕ) → Prog A → Prog A
  await : (clock : ℕ) → Prog A → Prog A
  ready : (clock : ℕ) → (Bool → Prog A) → Prog A
  frequency : (clock : ℕ) → (ℕ → Prog A) → Prog A
  measure : (name : String) (object : ℕ) → (ℕ → Prog A) → Prog A
  create : (name : String) → List Setting → (ℕ → Prog A) → Prog A
  ask : (name : String) → (Bool → Prog A) → Prog A
  call : (name : String) → List Setting → Prog A → Prog A
  poll : (name : String) (object : ℕ) → Prog A → Prog A

infixl 5 ◌>>=◌
unfoldable pub ◌>>=◌ : {A B : Type 0} → Prog A → (A → Prog B) → Prog B
pure a >>= f = f a
stop >>= f = stop
enable c s p >>= f = enable c s (p >>= f)
disable c p >>= f = disable c (p >>= f)
await c p >>= f = await c (p >>= f)
ready c p >>= f = ready c (λ b. p b >>= f)
frequency c p >>= f = frequency c (λ n. p n >>= f)
measure m o p >>= f = measure m o (λ n. p n >>= f)
create n s p >>= f = create n s (λ o. p o >>= f)
ask n p >>= f = ask n (λ b. p b >>= f)
call n s p >>= f = call n s (p >>= f)
poll n o p >>= f = poll n o (p >>= f)

infixl 5 ◌>>◌
abbrev pub ◌>>◌ : {B : Type 0} → Prog Unit → Prog B → Prog B
p >> q = p >>= λ _. q

-- The statements of the source.
abbrev pub clock_enable : ℕ → List Setting → Prog Unit
clock_enable c s = enable c s (pure tt)

abbrev pub clock_disable : ℕ → Prog Unit
clock_disable c = disable c (pure tt)

-- `while (!clockReady(clock));`
abbrev pub wait_ready : ℕ → Prog Unit
wait_ready c = await c (pure tt)

abbrev pub clock_ready : ℕ → Prog Bool
clock_ready c = ready c pure

abbrev pub clock_frequency : ℕ → Prog ℕ
clock_frequency c = frequency c pure

-- A number that the library tells of an object.
abbrev pub number_of : String → ℕ → Prog ℕ
number_of n o = measure n o pure

abbrev pub init : String → List Setting → Prog ℕ
init n s = create n s pure

-- A function of the library without a result of account.
abbrev pub perform : String → List Setting → Prog Unit
perform n s = call n s (pure tt)

-- The first object that a function of a board returns.
abbrev pub object_of : List ℕ → ℕ
object_of [] = 0
object_of (o ∷ _) = o

abbrev pub pin : (port line : String) → Pin
pin p l = record { port = p; line = l }

abbrev pub assert : Bool → Prog Unit
assert true = pure tt
assert false = stop

abbrev pub when : Bool → Prog Unit → Prog Unit
when true p = p
when false p = pure tt

-- The main clock of a platform has the number 0.
abbrev pub main_clock : ℕ
main_clock = 0

-- The clock that a configuration names.
abbrev pub source_of : List Setting → Option ℕ
source_of [] = none
source_of (source c ∷ s) = c
source_of (_ ∷ s) = source_of s

-- The input of a clock as far as the configuration tells: the clock that it names, or none for an
-- oscillator, whose configuration has its frequency.
abbrev pub input_named : List Setting → Option (Option ℕ)
input_named [] = none
input_named (source c ∷ s) = some c
input_named (number n v ∷ s) = if n == "frequency" then some none else input_named s
input_named (_ ∷ s) = input_named s

abbrev pub pins : List Setting → List Pin
pins [] = []
pins (wire n p ∷ s) = p ∷ pins s
pins (_ ∷ s) = pins s

abbrev pub same_pin : Pin → Pin → Bool
same_pin p q = (p.port == q.port) && (p.line == q.line)

abbrev pub uses : Pin → List Pin → Bool
uses p [] = false
uses p (q ∷ l) = same_pin p q || uses p l

-- No pin stands in the list twice.
abbrev pub distinct : List Pin → Bool
distinct [] = true
distinct (p ∷ l) = not (uses p l) && distinct l

-- The library and the chip, as the program sees them: what its calls do and answer, and time that
-- passes in a loop. `origin` is the clock from which a clock takes its input.
pub record Hardware : Type 1 where
  pub Hw : Type 0
  pub enable_clock : ℕ → List Setting → Hw → Hw
  pub disable_clock : ℕ → Hw → Hw
  pub is_ready : ℕ → Hw → Bool
  pub origin : ℕ → Hw → Option ℕ
  pub frequency_of : ℕ → Hw → ℕ
  pub measured : String → ℕ → Hw → ℕ
  pub create_object : String → List Setting → Hw → Option ℕ × Hw
  pub effect : String → List Setting → Hw → Hw
  pub answer : String → Hw → Bool × Hw
  pub finished : String → ℕ → Hw → Bool
  pub pass : Hw → Hw

-- How a run ends: with a result; at a call that was refused; at an assertion of the program; in a
-- loop when the fuel is used up; or in a state that is not safe.
pub data Outcome (A H : Type 0) : Type 0 where
  done : A → H → Outcome A H
  refused broken waiting unsafe : Outcome A H

module _ (w : Hardware) where
  open w use {Hw, is_ready, origin, pass}

  -- All clocks from which a clock is fed, up to an oscillator, are ready.
  unfoldable pub fed : (depth : ℕ) → ℕ → Hw → Bool
  fed zero c h = false
  fed (suc n) c h = elim (origin c h) [ none ↦ true | some d ↦ is_ready d h && fed n d h ]

  -- The core has a clock.
  abbrev pub is_safe : Hw → Bool
  is_safe h = fed 4 main_clock h

  unfoldable pub all_ready : List ℕ → Hw → Bool
  all_ready [] h = true
  all_ready (c ∷ l) h = is_ready c h && all_ready l h

  unfoldable pub wait :
      {A : Type 0} → (fuel : ℕ) → (Hw → Bool) → (Hw → Outcome A Hw) → Hw → Outcome A Hw
  wait zero test go h = waiting
  wait (suc fuel) test go h = elim (test h) [
    | true ↦ go h
    | false ↦ if is_safe (pass h) then wait fuel test go (pass h) else unsafe
  ]

-- `needs` gives the clocks that a call of `create` relies on.
module _ (w : Hardware) (needs : String → List Setting → List ℕ) where
  open w use {
    Hw, enable_clock, disable_clock, is_ready, frequency_of, measured, create_object, effect,
    answer, finished,
  }

  -- The run of a program, which ends when it comes to a state that is not safe, or to a call that
  -- lacks a clock or has a pin twice.
  unfoldable pub run : {A : Type 0} → (fuel : ℕ) → Prog A → Hw → Outcome A Hw
  run fuel (pure a) h = done a h
  run fuel stop h = broken
  run fuel (enable c s p) h =
      if is_safe w (enable_clock c s h) then run fuel p (enable_clock c s h) else unsafe
  run fuel (disable c p) h =
      if is_safe w (disable_clock c h) then run fuel p (disable_clock c h) else unsafe
  run fuel (await c p) h = wait w fuel (is_ready c) (run fuel p) h
  run fuel (ready c p) h = run fuel (p (is_ready c h)) h
  run fuel (frequency c p) h = run fuel (p (frequency_of c h)) h
  run fuel (measure n o p) h = run fuel (p (measured n o h)) h
  run fuel (create n s p) h =
      let (object, h') = create_object n s h in
      if all_ready w (needs n s) h && distinct (pins s)
      then elim object [ none ↦ refused | some o ↦ run fuel (p o) h' ]
      else unsafe
  run fuel (ask n p) h = let (b, h') = answer n h in run fuel (p b) h'
  run fuel (call n s p) h = run fuel p (effect n s h)
  run fuel (poll n o p) h = wait w fuel (finished n o) (run fuel p) h
