-- ===== src/Sct/Steps.antt =====
-- The run of a constructor: a sequence of steps on the driver's state, each of which may end it
-- with an error code. What was done before stays done.

use mathlib.Core.Path.{subst}
use halm_examples.Base.{◌≡◌}
use halm_examples.Sct.{Result}

pub data Run (S : Type 0) : Type 0 where
  running : S → Run S
  failed : Result → S → Run S

abbrev pub state_of : {S : Type 0} → Run S → S
state_of (running s) = s
state_of (failed r s) = s

abbrev pub Steps : Type 0 → Type 0
Steps S = S → Run S

infixl 5 ◌>>◌
abbrev pub ◌>>◌ : {S : Type 0} → Steps S → Steps S → Steps S
◌>>◌ m k s = elim (m s) [ running s' ↦ k s' | failed r s' ↦ failed r s' ]

abbrev pub modify : {S : Type 0} → (S → S) → Steps S
modify f s = running (f s)

-- `P` holds of the state when all steps were made, `Q` of the code and the state when one ended
-- the run.
pub data Ends {S : Type 0} (P : S → Type 0) (Q : Result → S → Type 0) : Run S → Type 0 where
  runs : {s : S} → P s → Ends P Q (running s)
  stops : {r : Result} {s : S} → Q r s → Ends P Q (failed r s)

pub ends :
    {S : Type 0} {P P' : S → Type 0} {Q : Result → S → Type 0} {r : Run S} {k : Steps S}
    → Ends P Q r
    → ((s : S) → P s → Ends P' Q (k s))
    → Ends P' Q (elim r [ running s ↦ k s | failed c s ↦ failed c s ])
ends (runs h) next = next _ h
ends (stops h) next = stops h

pub of_running :
    {S : Type 0} {P : S → Type 0} {Q : Result → S → Type 0} {r : Run S} {s : S}
    → Ends P Q r
    → r ≡ running s
    → P s
of_running {P = P} {s = s} (runs {s = s'} h) e = let q : s' ≡ s = cc in subst P q h
of_running (stops h) e = cc
