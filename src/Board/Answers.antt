-- ===== src/Board/Answers.antt =====
-- Runs on hardware that answers some questions with no.
use Prim.Native.String.{String}
use halm_examples.Base.{
  ℕ, zero, suc, ◌≡◌, refl, Bool, true, false, ◌&&◌, List, if◌then◌else◌, Bool-cases, Option-cases,
  inl, inr, ap, ◌∙◌, arith,
}
use halm_examples.Board.{
  Setting, Prog, pure, stop, enable, disable, await, ready, frequency, measure, create, ask, call,
  poll, pins, distinct, Hardware, Outcome, is_safe, all_ready, wait, run,
}

-- The program as it goes on where these questions are answered with no.
unfoldable pub denied : {A : Type 0} → (String → Bool) → Prog A → Prog A
denied t (pure a) = pure a
denied t stop = stop
denied t (enable c s p) = enable c s (denied t p)
denied t (disable c p) = disable c (denied t p)
denied t (await c p) = await c (denied t p)
denied t (ready c p) = ready c (λ b. denied t (p b))
denied t (frequency c p) = frequency c (λ n. denied t (p n))
denied t (measure m o p) = measure m o (λ n. denied t (p n))
denied t (create n s p) = create n s (λ o. denied t (p o))
denied t (ask n p) = ask n (λ b. denied t (p (b && (if t n then false else true))))
denied t (call n s p) = call n s (denied t p)
denied t (poll n o p) = poll n o (denied t p)

module _ (w : Hardware) where
  open w use {
    Hw, pass, is_ready, enable_clock, disable_clock, frequency_of, measured, create_object, answer,
    effect, finished,
  }

  -- The hardware answers these questions with no.
  abbrev pub Denies : (String → Bool) → Type 0
  Denies t = (n : String) (h : Hw) → t n ≡ true → (answer n h).0 ≡ false

  wait_same :
      {A : Type 0} (fuel : ℕ) (test : Hw → Bool) (go go' : Hw → Outcome A Hw)
      → ((h : Hw) → go' h ≡ go h)
      → (h : Hw) → wait w fuel test go' h ≡ wait w fuel test go h
  unfolding wait
  wait_same zero test go go' e h = refl
  wait_same (suc fuel) test go go' e h = elim (Bool-cases (test h)) [
    | inl hit ↦ rw (hit, wait) (e h)
    | inr miss ↦ elim (Bool-cases (is_safe w (pass h))) [
      | inl fine ↦ rw (miss, fine, wait) (wait_same fuel test go go' e (pass h))
      | inr lost ↦ rw (miss, lost, wait) refl
    ]
  ]

  and_answer : (a t : Bool) → (t ≡ true → a ≡ false) → (a && (if t then false else true)) ≡ a
  and_answer true true e = let no : true ≡ false = e refl in absurd (ground arith)
  and_answer true false e = refl
  and_answer false t e = refl

  module _ (needs : String → List Setting → List ℕ) (t : String → Bool) (d : Denies t) where
    pub run-denied :
        {A : Type 0} (fuel : ℕ) (p : Prog A) (h : Hw)
        → run w needs fuel (denied t p) h ≡ run w needs fuel p h
    unfolding run denied
    run-denied fuel (pure a) h = refl
    run-denied fuel stop h = refl
    run-denied fuel (enable c s p) h = elim (Bool-cases (is_safe w (enable_clock c s h))) [
      | inl fine ↦ rw fine (run-denied fuel p (enable_clock c s h))
      | inr lost ↦ rw lost refl
    ]
    run-denied fuel (disable c p) h = elim (Bool-cases (is_safe w (disable_clock c h))) [
      | inl fine ↦ rw fine (run-denied fuel p (disable_clock c h))
      | inr lost ↦ rw lost refl
    ]
    run-denied fuel (await c p) h =
        wait_same fuel (is_ready c) (run w needs fuel p) (run w needs fuel (denied t p))
          (run-denied fuel p) h
    run-denied fuel (ready c p) h = run-denied fuel (p (is_ready c h)) h
    run-denied fuel (frequency c p) h = run-denied fuel (p (frequency_of c h)) h
    run-denied fuel (measure n o p) h = run-denied fuel (p (measured n o h)) h
    run-denied fuel (create n s p) h =
        elim (Bool-cases (all_ready w (needs n s) h && distinct (pins s))) [
          | inl fine ↦ elim (Option-cases (create_object n s h).0) [
            | inl nothing ↦ rw (fine, nothing) refl
            | inr (o, made) ↦ rw (fine, made) (run-denied fuel (p o) (create_object n s h).1)
          ]
          | inr lost ↦ rw lost refl
        ]
    run-denied fuel (ask n p) h =
        ap (λ b. run w needs fuel (denied t (p b)) (answer n h).1)
          (and_answer (answer n h).0 (t n) (d n h))
        ∙ run-denied fuel (p (answer n h).0) (answer n h).1
    run-denied fuel (call n s p) h = run-denied fuel p (effect n s h)
    run-denied fuel (poll n o p) h =
        wait_same fuel (finished n o) (run w needs fuel p) (run w needs fuel (denied t p))
          (run-denied fuel p) h
