-- ===== src/Board/Known.antt =====
-- What is known of the clocks along the programs of the files board.c, and the conditions under
-- which a program is safe on any chip that is in a known state.
use Prim.Native.String.{String}
use halm_examples.Base.{
  ℕ, zero, suc, ◌≡◌, Bool, true, false, ◌&&◌, ◌||◌, Option, none, some, List, [], ◌∷◌, ◌==◌,
  if◌then◌else◌,
}
use halm_examples.Board.{
  Setting, Prog, pure, stop, enable, disable, await, ready, frequency, measure, create, ask, call,
  poll, main_clock, source_of, input_named, pins, distinct,
}

-- The clocks that are ready for sure, the inputs that are known, and the clock that has just been
-- started and will be ready in time.
pub record Known : Type 0 where
  pub up : ℕ → Bool
  pub input : ℕ → Option (Option ℕ)
  pub started : Option ℕ

unfoldable pub put {ℓ} : {A : Type ℓ} → ℕ → A → (ℕ → A) → ℕ → A
put i v f j = if i == j then v else f j

abbrev pub supplied : Option ℕ → Known → Bool
supplied none k = true
supplied (some c) k = k.up c

-- `fed` of what is known
unfoldable pub fed_for_sure : (depth : ℕ) → ℕ → Known → Bool
fed_for_sure zero c k = false
fed_for_sure (suc n) c k = elim (k.input c) [
  | none ↦ false
  | some o ↦ elim o [ none ↦ true | some d ↦ k.up d && fed_for_sure n d k ]
]

abbrev pub safe_for_sure : Known → Bool
safe_for_sure k = fed_for_sure 4 main_clock k

unfoldable pub all_up : List ℕ → Known → Bool
all_up [] k = true
all_up (c ∷ l) k = k.up c && all_up l k

abbrev pub is_started : ℕ → Option ℕ → Bool
is_started c none = false
is_started c (some d) = d == c

-- After each kind of call.
unfoldable pub after_enable : ℕ → List Setting → Known → Known
after_enable c s k = record {
  up = put c false k.up;
  input = put c (input_named s) k.input;
  started = if supplied (source_of s) k then some c else none;
}

unfoldable pub after_disable : ℕ → Known → Known
after_disable c k = record { up = put c false k.up; input = put c none k.input; started = none }

unfoldable pub after_ready : ℕ → Known → Known
after_ready c k = record { up = put c true k.up; input = k.input; started = none }

unfoldable pub after_call : Known → Known
after_call k = record k { started = none }

abbrev pub OneOfTwo : Bool → Type 0 → Type 0 → Type 0
OneOfTwo true P Q = P
OneOfTwo false P Q = P × Q

-- From what is known, each step leaves the core fed for sure, each loop ends, no assertion of the
-- program fails, a call has the clocks it needs and no pin twice, and the result is as wanted.
unfoldable pub Checks :
    {A : Type 0} → (String → List Setting → List ℕ) → (A → Known → Bool) → Prog A → Known → Type 0
Checks needs Q (pure a) k = Q a k ≡ true
Checks needs Q stop k = ⊥
Checks needs Q (enable c s p) k =
    (safe_for_sure (after_enable c s k) ≡ true) × Checks needs Q p (after_enable c s k)
Checks needs Q (disable c p) k =
    (safe_for_sure (after_disable c k) ≡ true) × Checks needs Q p (after_disable c k)
Checks needs Q (await c p) k =
    ((safe_for_sure (after_call k) && (k.up c || is_started c k.started)) ≡ true)
    × Checks needs Q p (after_ready c k)
Checks needs Q (ready c p) k =
    OneOfTwo (k.up c) (Checks needs Q (p true) (after_ready c k)) (Checks needs Q (p false) k)
Checks needs Q (frequency c p) k = (n : ℕ) → Checks needs Q (p n) k
Checks needs Q (measure m o p) k = (n : ℕ) → Checks needs Q (p n) k
Checks needs Q (create n s p) k =
    ((all_up (needs n s) k && distinct (pins s)) ≡ true)
    × ((o : ℕ) → Checks needs Q (p o) (after_call k))
Checks needs Q (ask n p) k =
    Checks needs Q (p true) (after_call k) × Checks needs Q (p false) (after_call k)
Checks needs Q (call n s p) k = Checks needs Q p (after_call k)
Checks needs Q (poll n o p) k =
    (safe_for_sure (after_call k) ≡ true) × Checks needs Q p (after_call k)
