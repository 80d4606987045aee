-- ===== src/Board/Holds.antt =====
-- How what is known of the clocks stays true along a program.
use mathlib.Core.Option.{some-injective}
use halm_examples.Base.{
  ℕ, zero, suc, ◌≡◌, ◌≢◌, refl, ◌∙◌, Bool, true, false, ◌&&◌, Option, none, some, List, [], ◌∷◌,
  arith, ◌==◌, if◌then◌else◌, Bool-cases, inl, inr,
}
use halm_examples.Board.{Setting, source_of, input_named, Hardware, fed, all_ready}
use halm_examples.Board.Known.{
  Known, put, supplied, fed_for_sure, all_up, after_enable, after_disable, after_ready, after_call,
}
use halm_examples.Board.Laws.{Keeps, IsSupplied, IsHardware, Holds, Starts}

pub and-split : (a b : Bool) → (a && b) ≡ true → (a ≡ true) × (b ≡ true)
and-split true b e = (refl, e)
and-split false b e = absurd (cc)

and-true : {a b : Bool} → a ≡ true → b ≡ true → (a && b) ≡ true
and-true e e' = rw (e, e') refl

some-ne : (c x : ℕ) → (c == x) ≡ false → some c ≢ some x
some-ne c x miss q = let same : c ≡ x = some-injective _ _ q in absurd (ground arith)

module _ (w : Hardware) (d : IsHardware w) where
  open w use {
    Hw, enable_clock, disable_clock, is_ready, origin, frequency_of, create_object, effect, answer,
    finished, pass,
  }
  open d use {
    limit, enable_keeps, enable_origin, enable_starts, disable_keeps, create_keeps, effect_keeps,
    answer_keeps, pass_keeps, finishes,
  }

  fed_input :
      (n c : ℕ) (k : Known) (h : Hw) (o : Option (Option ℕ))
      → k.input c ≡ o
      → ((e : ℕ) → fed_for_sure n e k ≡ true → fed w n e h ≡ true)
      → Holds w d k h
      → fed_for_sure (suc n) c k ≡ true
      → fed w (suc n) c h ≡ true
  unfolding fed fed_for_sure
  fed_input n c k h none i ih t e = let e' = rw (i, fed_for_sure) at e in absurd (cc)
  fed_input n c k h (some none) i ih t e = rw (t.origin_input c none i, fed) refl
  fed_input n c k h (some (some x)) i ih t e =
      let (on, rest) = and-split (k.up x) (fed_for_sure n x k) (rw (i, fed_for_sure) at e) in
      rw (t.origin_input c (some x) i, fed) (and-true (t.ready_up x on) (ih x rest))

  pub fed_lem :
      (n c : ℕ) (k : Known) (h : Hw)
      → Holds w d k h
      → fed_for_sure n c k ≡ true
      → fed w n c h ≡ true
  unfolding fed fed_for_sure
  fed_lem zero c k h t e = absurd (cc)
  fed_lem (suc n) c k h t e = fed_input n c k h (k.input c) refl (λ x. fed_lem n x k h t) t e

  pub all_up-Holds :
      (l : List ℕ) (k : Known) (h : Hw) → Holds w d k h → all_up l k ≡ true → all_ready w l h ≡ true
  unfolding all_up all_ready
  all_up-Holds [] k h t e = refl
  all_up-Holds (c ∷ l) k h t e =
      let (on, rest) = and-split (k.up c) (all_up l k) e in
      and-true (t.ready_up c on) (all_up-Holds l k h t rest)

  put_self : {A : Type 0} (i : ℕ) (v : A) (f : ℕ → A) → put i v f i ≡ v
  unfolding put
  put_self i v f = ground arith

  put_ne : {A : Type 0} (i j : ℕ) (v : A) (f : ℕ → A) → i ≢ j → put i v f j ≡ f j
  unfolding put
  put_ne i j v f ne = ground arith

  -- A call that leaves all clocks alone.
  pub Keeps-Holds :
      (k : Known) (h h' : Hw) → Keeps w none h h' → Holds w d k h → Holds w d (after_call k) h'
  unfolding after_call
  Keeps-Holds k h h' keep t = record {
    ready_up = λ c e. keep.still_ready c (λ q. cc) (t.ready_up c e);
    origin_input = λ c o e. keep.same_origin c (λ q. cc) ∙ t.origin_input c o e;
    starts = tt;
  }

  supplied_lem :
      (o : Option ℕ) (k : Known) (h : Hw) → Holds w d k h → supplied o k ≡ true → IsSupplied w o h
  supplied_lem none k h t e = tt
  supplied_lem (some c) k h t e = t.ready_up c e

  -- The clock of the call is not ready any more, the others are as they were.
  Keeps-up :
      (c : ℕ) (k : Known) (h h' : Hw)
      → Keeps w (some c) h h'
      → Holds w d k h
      → (x : ℕ) → put c false k.up x ≡ true
      → is_ready x h' ≡ true
  unfolding put
  Keeps-up c k h h' keep t x e = elim (Bool-cases (c == x)) [
    | inl hit ↦ let e' = rw hit at e in absurd (cc)
    | inr miss ↦ keep.still_ready x (some-ne c x miss) (t.ready_up x (rw miss at e))
  ]

  Keeps-input :
      (c : ℕ) (v : Option (Option ℕ)) (k : Known) (h h' : Hw)
      → Keeps w (some c) h h'
      → Holds w d k h
      → ((o : Option ℕ) → v ≡ some o → origin c h' ≡ o)
      → (x : ℕ) (o : Option ℕ) → put c v k.input x ≡ some o
      → origin x h' ≡ o
  unfolding put
  Keeps-input c v k h h' keep t own x o e = elim (Bool-cases (c == x)) [
    | inl hit ↦ let same : c ≡ x = ground arith in rw (← same) (own o (rw hit at e))
    | inr miss ↦ keep.same_origin x (some-ne c x miss) ∙ t.origin_input x o (rw miss at e)
  ]

  pub after_enable-Holds :
      (c : ℕ) (s : List Setting) (k : Known) (h : Hw)
      → Holds w d k h
      → Holds w d (after_enable c s k) (enable_clock c s h)
  unfolding after_enable
  after_enable-Holds c s k h t =
      let h' = enable_clock c s h in
      record {
        ready_up = Keeps-up c k h h' (enable_keeps c s h) t;
        origin_input =
            Keeps-input c (input_named s) k h h' (enable_keeps c s h) t
              (λ o e. enable_origin c s o h e);
        starts = enable_starts_lem c s k h t;
      }
    where
      enable_starts_lem :
          (c : ℕ) (s : List Setting) (k : Known) (h : Hw)
          → Holds w d k h
          → Starts w d (if supplied (source_of s) k then some c else none) (enable_clock c s h)
      enable_starts_lem c s k h t = elim (Bool-cases (supplied (source_of s) k)) [
        | inl yes' ↦ rw yes' (enable_starts c s h (supplied_lem (source_of s) k h t yes'))
        | inr no' ↦ rw no' tt
      ]

  pub after_disable-Holds :
      (c : ℕ) (k : Known) (h : Hw)
      → Holds w d k h
      → Holds w d (after_disable c k) (disable_clock c h)
  unfolding after_disable
  after_disable-Holds c k h t =
      let h' = disable_clock c h in
      record {
        ready_up = Keeps-up c k h h' (disable_keeps c h) t;
        origin_input = Keeps-input c none k h h' (disable_keeps c h) t (λ o e. absurd (cc));
        starts = tt;
      }

  pub after_ready-Holds :
      (c : ℕ) (k : Known) (h : Hw)
      → Holds w d k h
      → is_ready c h ≡ true
      → Holds w d (after_ready c k) h
  unfolding after_ready put
  after_ready-Holds c k h t e = record {
    ready_up = λ x u. elim (Bool-cases (c == x)) [
      | inl hit ↦ let same : c ≡ x = ground arith in rw (← same) e
      | inr miss ↦ t.ready_up x (rw miss at u)
    ];
    origin_input = t.origin_input;
    starts = tt;
  }

  pub same_call :
      (k : Known) (h : Hw) → Holds w d (after_call (after_call k)) h → Holds w d (after_call k) h
  unfolding after_call
  same_call k h t = t

  pub after_call-Holds : (k : Known) (h : Hw) → Holds w d k h → Holds w d (after_call k) h
  unfolding after_call
  after_call-Holds k h t = record {
    ready_up = t.ready_up;
    origin_input = t.origin_input;
    starts = tt;
  }

  pub await-Holds :
      (c : ℕ) (k : Known) (h : Hw)
      → Holds w d (after_call k) h
      → is_ready c h ≡ true
      → Holds w d (after_ready c k) h
  unfolding after_call after_ready
  await-Holds c k h t e = after_ready-Holds c (after_call k) h t e
