-- ===== src/Board/Laws.antt =====
-- What the programs of the files board.c rely on in the HALM library and the chip.
use Prim.Native.String.{String}
use halm_examples.Base.{ℕ, zero, suc, ◌≤◌, ◌≡◌, ◌≢◌, Bool, true, Option, none, some, List}
use halm_examples.Board.{Setting, source_of, input_named, Hardware}
use halm_examples.Board.Known.{Known}

module _ (w : Hardware) where
  open w use {
    Hw, enable_clock, disable_clock, is_ready, origin, frequency_of, create_object, effect, answer,
    finished, pass,
  }

  unfoldable pub passes : ℕ → Hw → Hw
  passes zero h = h
  passes (suc n) h = passes n (pass h)

  -- What is true at `h` is true at `h'` too, but for one clock.
  pub record Keeps (c : Option ℕ) (h h' : Hw) : Type 0 where
    pub still_ready : (d : ℕ) → c ≢ some d → is_ready d h ≡ true → is_ready d h' ≡ true
    pub same_origin : (d : ℕ) → c ≢ some d → origin d h' ≡ origin d h

  -- It becomes true within `limit` passes.
  pub record Soon (limit : ℕ) (test : Hw → Bool) (h : Hw) : Type 0 where
    pub time : ℕ
    pub time_le : time ≤ limit
    pub true_then : test (passes time h) ≡ true

  abbrev pub IsSupplied : Option ℕ → Hw → Type 0
  IsSupplied none h = Unit
  IsSupplied (some c) h = is_ready c h ≡ true

  -- What the programs rely on: a call for one clock leaves the others alone, other calls and time
  -- leave all of them alone, a clock with a running input starts in time, and an object answers in
  -- time.
  pub record IsHardware : Type 0 where
    pub limit : ℕ
    pub enable_keeps : (c : ℕ) (s : List Setting) (h : Hw) → Keeps (some c) h (enable_clock c s h)
    pub enable_origin :
        (c : ℕ) (s : List Setting) (o : Option ℕ) (h : Hw)
        → input_named s ≡ some o
        → origin c (enable_clock c s h) ≡ o
    pub enable_starts :
        (c : ℕ) (s : List Setting) (h : Hw)
        → IsSupplied (source_of s) h
        → Soon limit (is_ready c) (enable_clock c s h)
    pub disable_keeps : (c : ℕ) (h : Hw) → Keeps (some c) h (disable_clock c h)
    pub create_keeps :
        (n : String) (s : List Setting) (h : Hw) → Keeps none h (create_object n s h).1
    pub effect_keeps : (n : String) (s : List Setting) (h : Hw) → Keeps none h (effect n s h)
    pub answer_keeps : (n : String) (h : Hw) → Keeps none h (answer n h).1
    pub pass_keeps : (h : Hw) → Keeps none h (pass h)
    pub finishes : (n : String) (o : ℕ) (h : Hw) → Soon limit (finished n o) h

  module _ (d : IsHardware) where
    open d use {
      limit, enable_keeps, enable_origin, enable_starts, disable_keeps, create_keeps, effect_keeps,
      answer_keeps, pass_keeps, finishes,
    }

    abbrev pub Starts : Option ℕ → Hw → Type 0
    Starts none h = Unit
    Starts (some c) h = Soon limit (is_ready c) h

    -- What is known is true.
    pub record Holds (k : Known) (h : Hw) : Type 0 where
      pub ready_up : (c : ℕ) → k.up c ≡ true → is_ready c h ≡ true
      pub origin_input : (c : ℕ) (o : Option ℕ) → k.input c ≡ some o → origin c h ≡ o
      pub starts : Starts k.started h
