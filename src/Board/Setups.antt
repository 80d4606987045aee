-- ===== src/Board/Setups.antt =====
-- Any number of programs one after the other, each of which keeps what the others need.
use native.Mathlib.Omega.{arith}
use Prim.Native.String.{String}
use halm_examples.Base.{
  ℕ, ◌<◌, ◌≡◌, Bool, true, false, ◌&&◌, ◌||◌, Option, none, some, List, [], ◌∷◌, ◌==◌,
  if◌then◌else◌, Bool-cases, inl, inr,
}
use halm_examples.Board.{
  Setting, Prog, pure, ◌>>=◌, ◌>>◌, main_clock, Hardware, Outcome, done, refused, broken, waiting,
  unsafe, run,
}
use halm_examples.Board.Known.{Known, Checks, safe_for_sure, all_up}
use halm_examples.Board.Laws.{IsHardware, Holds}
use halm_examples.Board.Holds.{and-split, fed_lem}
use halm_examples.Board.Sound.{Ends, sound}
use halm_examples.Board.Safe.{
  from_internal, is_input, is_input-known, internal-Holds, EndsFed, EndsEither,
}
use halm_examples.Board.Sequence.{continue_with, run_bind}

-- The clocks that stay ready, and the inputs that stay as they are.
pub record Kept : Type 0 where
  pub ups : List ℕ
  pub inputs : List (ℕ × Option ℕ)

abbrev pub is_member : ℕ → List ℕ → Bool
is_member c [] = false
is_member c (d ∷ l) = (d == c) || is_member c l

abbrev pub lookup : ℕ → List (ℕ × Option ℕ) → Option (Option ℕ)
lookup c [] = none
lookup c ((d, o) ∷ l) = if d == c then some o else lookup c l

abbrev pub known_kept : Kept → Known
known_kept b = record {
  up = λ c. is_member c b.ups;
  input = λ c. lookup c b.inputs;
  started = none;
}

abbrev pub all_inputs : List (ℕ × Option ℕ) → Known → Bool
all_inputs [] k = true
all_inputs ((c, o) ∷ l) k = is_input o (k.input c) && all_inputs l k

-- All that is to be kept is known.
unfoldable pub covers : {A : Type 0} → Kept → A → Known → Bool
covers b a k = all_up b.ups k && all_inputs b.inputs k

unfoldable pub covers_either : {A : Type 0} → Kept → Kept → A → Known → Bool
covers_either b c a k = covers b a k || covers c a k

-- The core is fed from the clock given where what is kept is true.
abbrev pub Feeds : Kept → Option ℕ → Type 0
Feeds b o = (safe_for_sure (known_kept b) ≡ true) × (lookup main_clock b.inputs ≡ some o)

unfoldable pub setups : {S : Type 0} → (S → Prog (List ℕ)) → List S → Prog (List ℕ)
setups setup [] = pure []
setups setup (x ∷ xs) = setup x >>= λ _. setups setup xs

all_up-member :
    (l : List ℕ) (k : Known) (c : ℕ) → all_up l k ≡ true → is_member c l ≡ true → k.up c ≡ true
unfolding all_up
all_up-member [] k c e m = absurd (cc)
all_up-member (d ∷ l) k c e m =
    let (here, rest) = and-split (k.up d) (all_up l k) e in
    elim (Bool-cases (d == c)) [
      | inl hit ↦ let same : d ≡ c = ground arith in rw (← same) here
      | inr miss ↦ all_up-member l k c rest (rw miss at m)
    ]

all_inputs-lookup :
    (l : List (ℕ × Option ℕ)) (k : Known) (c : ℕ) (o : Option ℕ)
    → all_inputs l k ≡ true
    → lookup c l ≡ some o
    → k.input c ≡ some o
all_inputs-lookup [] k c o e m = absurd (cc)
all_inputs-lookup ((d, p) ∷ l) k c o e m =
    let (here, rest) = and-split (is_input p (k.input d)) (all_inputs l k) e in
    elim (Bool-cases (d == c)) [
      | inl hit ↦
          let same : d ≡ c = ground arith in
          let found : some p ≡ some o = rw hit at m in
          rw (← same, ← found) (is_input-known p (k.input d) here)
      | inr miss ↦ all_inputs-lookup l k c o rest (rw miss at m)
    ]

module _ (w : Hardware) (d : IsHardware w) where
  open w use {Hw, origin}
  open d use {limit}

  covers-Holds :
      {A : Type 0} (b : Kept) (a : A) (k : Known) (h : Hw)
      → covers b a k ≡ true
      → Holds w d k h
      → Holds w d (known_kept b) h
  unfolding covers
  covers-Holds b a k h e t =
      let (ups, inputs) = and-split (all_up b.ups k) (all_inputs b.inputs k) e in
      record {
        ready_up = λ c m. t.ready_up c (all_up-member b.ups k c ups m);
        origin_input = λ c o m. t.origin_input c o (all_inputs-lookup b.inputs k c o inputs m);
        starts = tt;
      }

  continue-Ends :
      {A B : Type 0} (P : A → Hw → Type 0) (Q : B → Hw → Type 0) (r : Outcome A Hw)
      (g : A → Hw → Outcome B Hw)
      → Ends w d P r
      → ((a : A) (h : Hw) → P a h → Ends w d Q (g a h))
      → Ends w d Q (continue_with r g)
  continue-Ends P Q (done a h) g e next = next a h e
  continue-Ends P Q refused g e next = tt
  continue-Ends P Q broken g e next = e
  continue-Ends P Q waiting g e next = e
  continue-Ends P Q unsafe g e next = e

  kept-EndsFed :
      {A : Type 0} (b : Kept) (o : Option ℕ) (r : Outcome A Hw)
      → Feeds b o
      → Ends w d (λ _ h'. Holds w d (known_kept b) h') r
      → EndsFed w o r
  kept-EndsFed b o (done a h) (safe, i) t =
      (fed_lem w d 4 main_clock (known_kept b) h t safe, t.origin_input main_clock o i)
  kept-EndsFed b o refused f e = tt
  kept-EndsFed b o broken f e = e
  kept-EndsFed b o waiting f e = e
  kept-EndsFed b o unsafe f e = e

  EndsFed-first :
      {A : Type 0} (o o' : Option ℕ) (r : Outcome A Hw) → EndsFed w o r → EndsEither w o o' r
  EndsFed-first o o' (done a h) (safe, i) = (safe, inl i)
  EndsFed-first o o' refused e = tt
  EndsFed-first o o' broken e = e
  EndsFed-first o o' waiting e = e
  EndsFed-first o o' unsafe e = e

  EndsFed-second :
      {A : Type 0} (o o' : Option ℕ) (r : Outcome A Hw) → EndsFed w o' r → EndsEither w o o' r
  EndsFed-second o o' (done a h) (safe, i) = (safe, inr i)
  EndsFed-second o o' refused e = tt
  EndsFed-second o o' broken e = e
  EndsFed-second o o' waiting e = e
  EndsFed-second o o' unsafe e = e

  continue-EndsEither :
      {A B : Type 0} (P : A → Hw → Type 0) (o o' : Option ℕ) (r : Outcome A Hw)
      (g : A → Hw → Outcome B Hw)
      → Ends w d P r
      → ((a : A) (h : Hw) → P a h → EndsEither w o o' (g a h))
      → EndsEither w o o' (continue_with r g)
  continue-EndsEither P o o' (done a h) g e next = next a h e
  continue-EndsEither P o o' refused g e next = tt
  continue-EndsEither P o o' broken g e next = e
  continue-EndsEither P o o' waiting g e next = e
  continue-EndsEither P o o' unsafe g e next = e

  module _ (needs : String → List Setting → List ℕ) {S : Type 0} (setup : S → Prog (List ℕ))
      (fuel : ℕ) where
    setups-Ends :
        (b : Kept)
        → limit < fuel
        → ((x : S) → Checks needs (covers b) (setup x) (known_kept b))
        → (xs : List S) (h : Hw) → Holds w d (known_kept b) h
        → Ends w d (λ _ h'. Holds w d (known_kept b) h') (run w needs fuel (setups setup xs) h)
    unfolding setups run
    setups-Ends b lt checks [] h t = t
    setups-Ends b lt checks (x ∷ xs) h t =
        rw (run_bind w needs fuel (setup x) (λ _. setups setup xs) h) (
          continue-Ends _ _ (run w needs fuel (setup x) h) _
            (sound w d needs (covers b) (setup x) fuel (known_kept b) h lt t (checks x))
            λ a h' (k, q, t'). setups-Ends b lt checks xs h' (covers-Holds b a k h' q t'))

    -- A start of the clocks, and any list of programs that keep what it has started.
    pub setups-EndsFed :
        (b : Kept) (o : Option ℕ) (start : Prog Unit)
        → limit < fuel
        → Feeds b o
        → Checks needs (covers b) start from_internal
        → ((x : S) → Checks needs (covers b) (setup x) (known_kept b))
        → (xs : List S) (h : Hw) → origin main_clock h ≡ none
        → EndsFed w o (run w needs fuel (start >> setups setup xs) h)
    setups-EndsFed b o start lt f first checks xs h e =
        rw (run_bind w needs fuel start (λ _. setups setup xs) h) (
          kept-EndsFed b o _ f (
            continue-Ends _ _ (run w needs fuel start h) _
              (sound w d needs (covers b) start fuel from_internal h lt (internal-Holds w d h e)
                first)
              λ a h' (k, q, t). setups-Ends b lt checks xs h' (covers-Holds b a k h' q t)))

    -- The same where the start ends in one of two ways.
    pub setups-EndsEither :
        (b b' : Kept) (o o' : Option ℕ) (start : Prog Unit)
        → limit < fuel
        → Feeds b o
        → Feeds b' o'
        → Checks needs (covers_either b b') start from_internal
        → ((x : S) → Checks needs (covers b) (setup x) (known_kept b))
        → ((x : S) → Checks needs (covers b') (setup x) (known_kept b'))
        → (xs : List S) (h : Hw) → origin main_clock h ≡ none
        → EndsEither w o o' (run w needs fuel (start >> setups setup xs) h)
    unfolding covers_either
    setups-EndsEither b b' o o' start lt f f' first checks checks' xs h e =
        rw (run_bind w needs fuel start (λ _. setups setup xs) h) (
          continue-EndsEither _ o o' (run w needs fuel start h) _
            (sound w d needs (covers_either b b') start fuel from_internal h lt
              (internal-Holds w d h e) first)
            λ a h' (k, q, t). elim (Bool-cases (covers b a k)) [
              | inl yes' ↦ EndsFed-first o o' _ (
                  kept-EndsFed b o _ f
                    (setups-Ends b lt checks xs h' (covers-Holds b a k h' yes' t)))
              | inr no' ↦ EndsFed-second o o' _ (
                  kept-EndsFed b' o' _ f'
                    (setups-Ends b' lt checks' xs h' (covers-Holds b' a k h' (rw no' at q) t)))
            ])
