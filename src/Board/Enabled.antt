-- ===== src/Board/Enabled.antt =====
-- The order of calls in which a clock is enabled before the object that it feeds is made, on each
-- path of a program, whatever the library answers. Not every function of the files board.c waits for
-- a clock that it enables.
use Prim.Native.String.{String}
use halm_examples.Base.{ℕ, ◌≡◌, Bool, true, false, ◌&&◌, List, [], ◌∷◌, ◌==◌, if◌then◌else◌}
use halm_examples.Board.{
  Setting, Prog, pure, stop, enable, disable, await, ready, frequency, measure, create, ask, call,
  poll, ◌>>=◌,
}
use halm_examples.Board.Setups.{is_member, setups}

abbrev pub all_members : List ℕ → List ℕ → Bool
all_members [] on = true
all_members (c ∷ l) on = is_member c on && all_members l on

unfoldable pub without : ℕ → List ℕ → List ℕ
without c [] = []
without c (d ∷ l) = let rest = without c l in if d == c then rest else d ∷ rest

-- `feeds` gives the clocks of an object, `on` those that have been enabled.
unfoldable pub Enabled : {A : Type 0} → (String → List Setting → List ℕ) → Prog A → List ℕ → Type 0
Enabled feeds (pure a) on = Unit
Enabled feeds stop on = Unit
Enabled feeds (enable c s p) on = Enabled feeds p (c ∷ on)
Enabled feeds (disable c p) on = Enabled feeds p (without c on)
Enabled feeds (await c p) on = Enabled feeds p on
Enabled feeds (ready c p) on = Enabled feeds (p true) on × Enabled feeds (p false) on
Enabled feeds (frequency c p) on = (n : ℕ) → Enabled feeds (p n) on
Enabled feeds (measure m o p) on = (n : ℕ) → Enabled feeds (p n) on
Enabled feeds (create n s p) on =
    (all_members (feeds n s) on ≡ true) × ((o : ℕ) → Enabled feeds (p o) on)
Enabled feeds (ask n p) on = Enabled feeds (p true) on × Enabled feeds (p false) on
Enabled feeds (call n s p) on = Enabled feeds p on
Enabled feeds (poll n o p) on = Enabled feeds p on

module _ (feeds : String → List Setting → List ℕ) where
  pub bind-Enabled :
      {A B : Type 0} (p : Prog A) (f : A → Prog B) (on : List ℕ)
      → Enabled feeds p on
      → ((a : A) (on' : List ℕ) → Enabled feeds (f a) on')
      → Enabled feeds (p >>= f) on
  unfolding Enabled ◌>>=◌
  bind-Enabled (pure a) f on e rest = rest a on
  bind-Enabled stop f on e rest = tt
  bind-Enabled (enable c s p) f on e rest = bind-Enabled p f (c ∷ on) e rest
  bind-Enabled (disable c p) f on e rest = bind-Enabled p f (without c on) e rest
  bind-Enabled (await c p) f on e rest = bind-Enabled p f on e rest
  bind-Enabled (ready c p) f on e rest =
      (bind-Enabled (p true) f on e.0 rest, bind-Enabled (p false) f on e.1 rest)
  bind-Enabled (frequency c p) f on e rest = λ n. bind-Enabled (p n) f on (e n) rest
  bind-Enabled (measure m o p) f on e rest = λ n. bind-Enabled (p n) f on (e n) rest
  bind-Enabled (create n s p) f on e rest = (e.0, λ o. bind-Enabled (p o) f on (e.1 o) rest)
  bind-Enabled (ask n p) f on e rest =
      (bind-Enabled (p true) f on e.0 rest, bind-Enabled (p false) f on e.1 rest)
  bind-Enabled (call n s p) f on e rest = bind-Enabled p f on e rest
  bind-Enabled (poll n o p) f on e rest = bind-Enabled p f on e rest

  -- Any setups one after the other.
  pub setups-Enabled :
      {S : Type 0} (setup : S → Prog (List ℕ))
      → ((x : S) (on : List ℕ) → Enabled feeds (setup x) on)
      → (xs : List S) (on : List ℕ) → Enabled feeds (setups setup xs) on
  unfolding setups Enabled
  setups-Enabled setup each [] on = tt
  setups-Enabled setup each (x ∷ xs) on =
      bind-Enabled (setup x) (λ _. setups setup xs) on (each x on)
        λ _ on'. setups-Enabled setup each xs on'
