-- ===== src/Sct/Laws.antt =====
-- What the drivers rely on in the base class of the HALM library: requests are granted from what
-- is free, and what is released is free again.
use mathlib.Core.Path.{fun_ext}
use halm_examples.Base.{ℕ, ◌<◌, ◌≡◌, Bool, true, false, some, arith, ◌==◌, if◌then◌else◌}
use halm_examples.Sct.{Library, ok}

-- Which events, inputs and outputs are in use.
pub record Usage : Type 0 where
  pub event : ℕ → Bool
  pub input : ℕ → Bool
  pub output : ℕ → Bool

-- A table in which `k` has been marked.
unfoldable pub marked : (ℕ → Bool) → ℕ → Bool → ℕ → Bool
marked f k v j = if k == j then v else f j

abbrev pub mark_event : ℕ → Bool → Usage → Usage
mark_event k v u = record u { event = marked u.event k v }

abbrev pub mark_input : ℕ → Bool → Usage → Usage
mark_input k v u = record u { input = marked u.input k v }

abbrev pub mark_output : ℕ → Bool → Usage → Usage
mark_output k v u = record u { output = marked u.output k v }

pub marked-marked : (f : ℕ → Bool) (k : ℕ) → f k ≡ false → marked (marked f k true) k false ≡ f
unfolding marked
marked-marked f k free = fun_ext λ j. ground arith

pub marked_self : (f : ℕ → Bool) (k : ℕ) (v : Bool) → marked f k v k ≡ v
unfolding marked
marked_self f k v = ground arith

-- What is in use stays in use when more is taken.
pub marked_stays : (f : ℕ → Bool) (k j : ℕ) → f j ≡ true → marked f k true j ≡ true
unfolding marked
marked_stays f k j h = ground arith

module _ (l : Library) where
  open l use {
    Base, init, deinit, allocate_event, release_event, reserve_input, release_input, reserve_output,
    release_output,
  }

  pub record IsLibrary : Type 0 where
    pub usage : Base → Usage
    -- Neither end of an object's life touches the tables.
    pub init_keeps :
        (channel : ℕ) (part : Bool) (b b' : Base)
        → init channel part b ≡ (ok, b')
        → usage b' ≡ usage b
    pub deinit_keeps : (b : Base) → usage (deinit b) ≡ usage b
    pub allocated :
        (b b' : Base) (e : ℕ)
        → allocate_event b ≡ some (e, b')
        → (e < 16) × ((usage b).event e ≡ false) × (usage b' ≡ mark_event e true (usage b))
    pub released : (b : Base) (e : ℕ) → usage (release_event e b) ≡ mark_event e false (usage b)
    pub output_reserved :
        (b b' : Base) (i : ℕ)
        → reserve_output i b ≡ some b'
        → ((usage b).output i ≡ false) × (usage b' ≡ mark_output i true (usage b))
    pub output_released :
        (b : Base) (i : ℕ) → usage (release_output i b) ≡ mark_output i false (usage b)
    pub input_reserved :
        (b b' : Base) (i : ℕ)
        → reserve_input i b ≡ some b'
        → ((usage b).input i ≡ false) × (usage b' ≡ mark_input i true (usage b))
    pub input_released :
        (b : Base) (i : ℕ) → usage (release_input i b) ≡ mark_input i false (usage b)
