-- ===== src/Board/Sound.antt =====
-- A program of the files board.c that passes its checks runs safely on every chip.
use Prim.Native.String.{String}
use halm_examples.Base.{
  ℕ, zero, suc, ◌<◌, ◌≡◌, Bool, true, false, ◌||◌, Option, none, some, List, arith, Bool-cases,
  Option-cases, inl, inr,
}
use halm_examples.Board.{
  Setting, Prog, pure, stop, enable, disable, await, ready, frequency, measure, create, ask, call,
  poll, main_clock, pins, distinct, Hardware, Outcome, done, refused, wait, run,
}
use halm_examples.Board.Known.{
  Known, safe_for_sure, all_up, is_started, after_enable, after_disable, after_ready, after_call,
  Checks, OneOfTwo,
}
use halm_examples.Board.Laws.{Soon, IsHardware, Holds, Starts, passes}
use halm_examples.Board.Holds.{
  and-split, fed_lem, all_up-Holds, Keeps-Holds, after_enable-Holds, after_disable-Holds,
  after_ready-Holds, same_call, after_call-Holds, await-Holds,
}

OneOfTwo-first : (b : Bool) (P Q : Type 0) → OneOfTwo b P Q → P
OneOfTwo-first true P Q h = h
OneOfTwo-first false P Q h = h.0

OneOfTwo-second : (b : Bool) (P Q : Type 0) → b ≡ false → OneOfTwo b P Q → Q
OneOfTwo-second true P Q e h = absurd (cc)
OneOfTwo-second false P Q e h = h.1

module _ (w : Hardware) (d : IsHardware w) where
  open w use {
    Hw, enable_clock, disable_clock, is_ready, origin, frequency_of, measured, create_object,
    effect, answer, finished, pass,
  }
  open d use {
    limit, enable_keeps, enable_origin, enable_starts, disable_keeps, create_keeps, effect_keeps,
    answer_keeps, pass_keeps, finishes,
  }

  -- A loop whose test is met in time ends, and the core is fed all the while.
  wait_lem :
      {A : Type 0} (P : Outcome A Hw → Type 0) (n fuel : ℕ) (test : Hw → Bool)
      (go : Hw → Outcome A Hw) (k : Known) (h : Hw)
      → n < fuel
      → test (passes w n h) ≡ true
      → safe_for_sure (after_call k) ≡ true
      → Holds w d (after_call k) h
      → ((h' : Hw) → Holds w d (after_call k) h' → test h' ≡ true → P (go h'))
      → P (wait w fuel test go h)
  unfolding passes wait
  wait_lem P n zero test go k h lt e safe t next = absurd (omega arith)
  wait_lem P zero (suc fuel) test go k h lt e safe t next = rw (e, wait) (next h t e)
  wait_lem P (suc n) (suc fuel) test go k h lt e safe t next = elim (Bool-cases (test h)) [
    | inl hit ↦ rw (hit, wait) (next h t hit)
    | inr miss ↦
        let t' = Keeps-Holds w d (after_call k) h (pass h) (pass_keeps h) t in
        let fine =
          fed_lem w d 4 main_clock (after_call k) (pass h) (same_call w d k (pass h) t') safe in
        rw (miss, fine, wait)
          (wait_lem P n fuel test go k (pass h) (omega arith) e safe (same_call w d k (pass h) t')
            next)
  ]

  -- The run ends with a result as stated, or at a call that the library refuses.
  abbrev pub Ends : {A : Type 0} → (A → Hw → Type 0) → Outcome A Hw → Type 0
  Ends P (done a h) = P a h
  Ends P refused = Unit
  Ends P _ = ⊥

  -- A clock that is ready, or has been started, is ready in time.
  Soon-await :
      (c : ℕ) (k : Known) (h : Hw)
      → Holds w d k h
      → (k.up c || is_started c k.started) ≡ true
      → Soon w limit (is_ready c) h
  unfolding passes
  Soon-await c k h t e = elim (Bool-cases (k.up c)) [
    | inl up ↦ record { time = 0; time_le = omega arith; true_then = now c h (t.ready_up c up) }
    | inr down ↦ started_lem c k.started h (rw down at e) t.starts
  ]
    where
      now : (c : ℕ) (h : Hw) → is_ready c h ≡ true → is_ready c (passes w 0 h) ≡ true
      now c h e = e

      started_lem :
          (c : ℕ) (o : Option ℕ) (h : Hw)
          → is_started c o ≡ true
          → Starts w d o h
          → Soon w limit (is_ready c) h
      started_lem c none h e s = absurd (cc)
      started_lem c (some x) h e s = let same : x ≡ c = ground arith in rw same at s

  module _ (needs : String → List Setting → List ℕ) where
    -- The checks of a program are enough: with more fuel than a clock needs to start, its run on
    -- any chip ends as it should.
    pub sound :
        {A : Type 0} (Q : A → Known → Bool) (p : Prog A) (fuel : ℕ) (k : Known) (h : Hw)
        → limit < fuel
        → Holds w d k h
        → Checks needs Q p k
        → Ends (λ a h'. (k' : Known) × (Q a k' ≡ true) × Holds w d k' h') (run w needs fuel p h)
    unfolding run Checks
    sound Q (pure a) fuel k h lt t c = (k, c, t)
    sound Q stop fuel k h lt t c = c
    sound Q (enable x s p) fuel k h lt t (safe, c) =
        let t' = after_enable-Holds w d x s k h t in
        rw (fed_lem w d 4 main_clock (after_enable x s k) (enable_clock x s h) t' safe)
          (sound Q p fuel (after_enable x s k) (enable_clock x s h) lt t' c)
    sound Q (disable x p) fuel k h lt t (safe, c) =
        let t' = after_disable-Holds w d x k h t in
        rw (fed_lem w d 4 main_clock (after_disable x k) (disable_clock x h) t' safe)
          (sound Q p fuel (after_disable x k) (disable_clock x h) lt t' c)
    sound Q (await x p) fuel k h lt t (e, c) =
        let (safe, coming) = and-split (safe_for_sure (after_call k)) _ e in
        let soon = Soon-await x k h t coming in
        wait_lem (Ends (λ a h'. (k' : Known) × (Q a k' ≡ true) × Holds w d k' h')) soon.time fuel
          (is_ready x) (run w needs fuel p) k h (omega (arith, soon.time_le)) soon.true_then safe
          (after_call-Holds w d k h t)
          λ h' t' e'. sound Q p fuel (after_ready x k) h' lt (await-Holds w d x k h' t' e') c
    sound Q (ready x p) fuel k h lt t c = elim (Bool-cases (is_ready x h)) [
      | inl on ↦ rw on (
          sound Q (p true) fuel (after_ready x k) h lt (after_ready-Holds w d x k h t on)
            (OneOfTwo-first (k.up x) _ _ c))
      | inr off ↦
          rw off (sound Q (p false) fuel k h lt t (OneOfTwo-second (k.up x) _ _ (down off) c))
    ]
      where
        down : is_ready x h ≡ false → k.up x ≡ false
        down off = elim (Bool-cases (k.up x)) [
          | inl up ↦ let on = t.ready_up x up in absurd (cc)
          | inr e ↦ e
        ]
    sound Q (frequency x p) fuel k h lt t c =
        sound Q (p (frequency_of x h)) fuel k h lt t (c (frequency_of x h))
    sound Q (measure m o p) fuel k h lt t c =
        sound Q (p (measured m o h)) fuel k h lt t (c (measured m o h))
    sound Q (create n s p) fuel k h lt t (e, c) =
        let (have, pins_differ) = and-split (all_up (needs n s) k) (distinct (pins s)) e in
        let t' = Keeps-Holds w d k h (create_object n s h).1 (create_keeps n s h) t in
        rw (all_up-Holds w d (needs n s) k h t have, pins_differ)
          (elim (Option-cases (create_object n s h).0) [
            | inl none_made ↦ rw none_made tt
            | inr (o, made) ↦
                rw made (sound Q (p o) fuel (after_call k) (create_object n s h).1 lt t' (c o))
          ])
    sound Q (ask n p) fuel k h lt t (c, c') =
        let t' = Keeps-Holds w d k h (answer n h).1 (answer_keeps n h) t in
        elim (Bool-cases (answer n h).0) [
          | inl on ↦ rw on (sound Q (p true) fuel (after_call k) (answer n h).1 lt t' c)
          | inr off ↦ rw off (sound Q (p false) fuel (after_call k) (answer n h).1 lt t' c')
        ]
    sound Q (call n s p) fuel k h lt t c =
        sound Q p fuel (after_call k) (effect n s h) lt
          (Keeps-Holds w d k h (effect n s h) (effect_keeps n s h) t) c
    sound Q (poll n o p) fuel k h lt t (safe, c) =
        let soon = finishes n o h in
        wait_lem (Ends (λ a h'. (k' : Known) × (Q a k' ≡ true) × Holds w d k' h')) soon.time fuel
          (finished n o) (run w needs fuel p) k h (omega (arith, soon.time_le)) soon.true_then safe
          (after_call-Holds w d k h t) λ h' t' e'. sound Q p fuel (after_call k) h' lt t' c
