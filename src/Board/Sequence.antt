-- ===== src/Board/Sequence.antt =====
-- Programs one after the other: a run of both is a run of the second from where the first ends.
use Prim.Native.String.{String}
use halm_examples.Base.{
  ℕ, zero, suc, ◌≡◌, refl, Bool, ◌&&◌, List, Bool-cases, Option-cases, inl, inr,
}
use halm_examples.Board.{
  Setting, Prog, pure, stop, enable, disable, await, ready, frequency, measure, create, ask, call,
  poll, ◌>>=◌, pins, distinct, Hardware, Outcome, done, refused, broken, waiting, unsafe, is_safe,
  all_ready, wait, run,
}

-- `h` goes on with the result of a run.
abbrev pub continue_with : {A B H : Type 0} → Outcome A H → (A → H → Outcome B H) → Outcome B H
continue_with (done a h) g = g a h
continue_with refused g = refused
continue_with broken g = broken
continue_with waiting g = waiting
continue_with unsafe g = unsafe

module _ (w : Hardware) where
  open w use {
    Hw, pass, is_ready, enable_clock, disable_clock, frequency_of, measured, create_object, answer,
    effect, finished,
  }

  wait_bind :
      {A B : Type 0} (fuel : ℕ) (test : Hw → Bool) (go : Hw → Outcome A Hw)
      (go' : Hw → Outcome B Hw) (g : A → Hw → Outcome B Hw)
      → ((h : Hw) → go' h ≡ continue_with (go h) g)
      → (h : Hw) → wait w fuel test go' h ≡ continue_with (wait w fuel test go h) g
  unfolding wait
  wait_bind zero test go go' g e h = refl
  wait_bind (suc fuel) test go go' g e h = elim (Bool-cases (test h)) [
    | inl hit ↦ rw (hit, wait) (e h)
    | inr miss ↦ elim (Bool-cases (is_safe w (pass h))) [
      | inl fine ↦ rw (miss, fine, wait) (wait_bind fuel test go go' g e (pass h))
      | inr lost ↦ rw (miss, lost, wait) refl
    ]
  ]

  module _ (needs : String → List Setting → List ℕ) where
    pub run_bind :
        {A B : Type 0} (fuel : ℕ) (p : Prog A) (f : A → Prog B) (h : Hw)
        → run w needs fuel (p >>= f) h
          ≡ continue_with (run w needs fuel p h) (λ a h'. run w needs fuel (f a) h')
    unfolding run ◌>>=◌
    run_bind fuel (pure a) f h = refl
    run_bind fuel stop f h = refl
    run_bind fuel (enable c s p) f h = elim (Bool-cases (is_safe w (enable_clock c s h))) [
      | inl fine ↦ rw fine (run_bind fuel p f (enable_clock c s h))
      | inr lost ↦ rw lost refl
    ]
    run_bind fuel (disable c p) f h = elim (Bool-cases (is_safe w (disable_clock c h))) [
      | inl fine ↦ rw fine (run_bind fuel p f (disable_clock c h))
      | inr lost ↦ rw lost refl
    ]
    run_bind fuel (await c p) f h =
        wait_bind fuel (is_ready c) (run w needs fuel p) (run w needs fuel (p >>= f)) _
          (run_bind fuel p f) h
    run_bind fuel (ready c p) f h = run_bind fuel (p (is_ready c h)) f h
    run_bind fuel (frequency c p) f h = run_bind fuel (p (frequency_of c h)) f h
    run_bind fuel (measure m o p) f h = run_bind fuel (p (measured m o h)) f h
    run_bind fuel (create n s p) f h =
        let h' = (create_object n s h).1 in
        elim (Bool-cases (all_ready w (needs n s) h && distinct (pins s))) [
          | inl fine ↦ rw fine (elim (Option-cases (create_object n s h).0) [
            | inl none_made ↦ rw none_made refl
            | inr (o, made) ↦ rw made (run_bind fuel (p o) f h')
          ])
          | inr lost ↦ rw lost refl
        ]
    run_bind fuel (ask n p) f h = run_bind fuel (p (answer n h).0) f (answer n h).1
    run_bind fuel (call n s p) f h = run_bind fuel p f (effect n s h)
    run_bind fuel (poll n o p) f h =
        wait_bind fuel (finished n o) (run w needs fuel p) (run w needs fuel (p >>= f)) _
          (run_bind fuel p f) h
