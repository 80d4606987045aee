-- ===== src/Board/Safe.antt =====
-- A program that passes its checks is safe on every chip whose core runs from its own oscillator.
use native.Mathlib.Omega.{arith}
use Prim.Native.String.{String}
use mathlib.Core.Option.{some-injective}
use halm_examples.Base.{
  ℕ, ◌<◌, ◌≡◌, refl, ◌⊎◌, Bool, true, false, ◌&&◌, ◌||◌, Option, none, some, List, [], ◌==◌,
  Bool-cases, inl, inr,
}
use halm_examples.Board.{
  Setting, Prog, main_clock, Hardware, Outcome, done, refused, broken, waiting, unsafe, is_safe,
  run,
}
use halm_examples.Board.Known.{Known, put, fed_for_sure, safe_for_sure, after_call, Checks}
use halm_examples.Board.Laws.{IsHardware, Holds}
use halm_examples.Board.Holds.{and-split, fed_lem}
use halm_examples.Board.Sound.{Ends, sound}

-- The core runs from its own oscillator, and nothing is known of the other clocks.
abbrev pub from_internal : Known
from_internal = record {
  up = λ _. false;
  input = put main_clock (some none) λ _. none;
  started = none;
}

abbrev pub no_needs : String → List Setting → List ℕ
no_needs n s = []

-- The core is fed, and takes its clock from the one given.
abbrev pub is_input : Option ℕ → Option (Option ℕ) → Bool
is_input o none = false
is_input none (some none) = true
is_input none (some (some d)) = false
is_input (some c) (some none) = false
is_input (some c) (some (some d)) = c == d

unfoldable pub feeds_core : {A : Type 0} → Option ℕ → A → Known → Bool
feeds_core o a k = safe_for_sure (after_call k) && is_input o (k.input main_clock)

-- One of two clocks.
unfoldable pub feeds_either : {A : Type 0} → Option ℕ → Option ℕ → A → Known → Bool
feeds_either o p a k = feeds_core o a k || feeds_core p a k

pub is_input-known : (o : Option ℕ) (v : Option (Option ℕ)) → is_input o v ≡ true → v ≡ some o
is_input-known o none e = absurd (cc)
is_input-known none (some none) e = refl
is_input-known none (some (some d)) e = absurd (cc)
is_input-known (some c) (some none) e = absurd (cc)
is_input-known (some c) (some (some d)) e = let same : c ≡ d = ground arith in rw same refl

module _ (w : Hardware) where
  open w use {Hw, origin}

  -- The run ends with the core fed from the clock given, or at a call that the library refuses.
  abbrev pub EndsFed : {A : Type 0} → Option ℕ → Outcome A Hw → Type 0
  EndsFed o (done a h) = (is_safe w h ≡ true) × (origin main_clock h ≡ o)
  EndsFed o refused = Unit
  EndsFed o _ = ⊥

  -- The same with one of two clocks.
  abbrev pub EndsEither : {A : Type 0} → Option ℕ → Option ℕ → Outcome A Hw → Type 0
  EndsEither o p (done a h) =
      (is_safe w h ≡ true) × (origin main_clock h ≡ o ⊎ origin main_clock h ≡ p)
  EndsEither o p refused = Unit
  EndsEither o p _ = ⊥

module _ (w : Hardware) (d : IsHardware w) where
  open w use {Hw, origin}
  open d use {limit}

  pub internal-Holds : (h : Hw) → origin main_clock h ≡ none → Holds w d from_internal h
  unfolding put
  internal-Holds h e = record {
    ready_up = λ c u. absurd (cc);
    origin_input = λ c o u. elim (Bool-cases (main_clock == c)) [
      | inl hit ↦
          let same : main_clock ≡ c = ground arith in
          let eq : none ≡ o = some-injective _ _ (rw hit at u) in rw (← same, ← eq) e
      | inr miss ↦ let e' = rw miss at u in absurd (cc)
    ];
    starts = tt;
  }

  fed_end :
      {A : Type 0} (o : Option ℕ) (r : Outcome A Hw)
      → Ends w d (λ a h'. (k' : Known) × (feeds_core o a k' ≡ true) × Holds w d k' h') r
      → EndsFed w o r
  unfolding feeds_core fed_for_sure after_call
  fed_end o (done a h) (k, q, t) =
      let (safe, i) = and-split (safe_for_sure (after_call k)) _ q in
      (
        fed_lem w d 4 main_clock k h t safe,
        t.origin_input main_clock o (is_input-known o (k.input main_clock) i),
      )
  fed_end o refused e = tt
  fed_end o broken e = e
  fed_end o waiting e = e
  fed_end o unsafe e = e

  pub safe_lem :
      (needs : String → List Setting → List ℕ) {A : Type 0} (o : Option ℕ) (p : Prog A) (fuel : ℕ)
      (h : Hw)
      → limit < fuel
      → origin main_clock h ≡ none
      → Checks needs (feeds_core o) p from_internal
      → EndsFed w o (run w needs fuel p h)
  safe_lem needs o p fuel h lt e c =
      fed_end o (run w needs fuel p h)
        (sound w d needs (feeds_core o) p fuel from_internal h lt (internal-Holds h e) c)

  either_end :
      {A : Type 0} (o p : Option ℕ) (r : Outcome A Hw)
      → Ends w d (λ a h'. (k' : Known) × (feeds_either o p a k' ≡ true) × Holds w d k' h') r
      → EndsEither w o p r
  unfolding feeds_either
  either_end o p (done a h) (k, q, t) = elim (Bool-cases (feeds_core o a k)) [
    | inl yes' ↦ let (safe, e) = fed_end o (done a h) (k, yes', t) in (safe, inl e)
    | inr no' ↦ let (safe, e) = fed_end p (done a h) (k, rw no' at q, t) in (safe, inr e)
  ]
  either_end o p refused e = tt
  either_end o p broken e = e
  either_end o p waiting e = e
  either_end o p unsafe e = e

  pub either_lem :
      (needs : String → List Setting → List ℕ) {A : Type 0} (o o' : Option ℕ) (p : Prog A)
      (fuel : ℕ) (h : Hw)
      → limit < fuel
      → origin main_clock h ≡ none
      → Checks needs (feeds_either o o') p from_internal
      → EndsEither w o o' (run w needs fuel p h)
  either_lem needs o o' p fuel h lt e c =
      either_end o o' (run w needs fuel p h)
        (sound w d needs (feeds_either o o') p fuel from_internal h lt (internal-Holds h e) c)
