-- ===== src/Sct/Writes.antt =====
-- Reading back what was written to one half of a register, or to one of a family.
use halm_examples.Base.{ℕ, ◌≡◌, ◌≢◌, refl, Bool, true, false, not, arith}
use halm_examples.Sct.{at_part, at_index}

module _ (f : Bool → ℕ) (v : ℕ) where
  pub at_part_self : (p : Bool) → at_part f p v p ≡ v
  unfolding at_part
  at_part_self true = refl
  at_part_self false = refl

  pub at_part_other : (p : Bool) → at_part f p v (not p) ≡ f (not p)
  unfolding at_part
  at_part_other true = refl
  at_part_other false = refl

module _ {ℓ} {A : Type ℓ} (f : ℕ → A) (v : A) where
  pub at_index_self : (i : ℕ) → at_index f i v i ≡ v
  unfolding at_index
  at_index_self i = ground arith

  pub at_index_ne : (i j : ℕ) → i ≢ j → at_index f i v j ≡ f j
  unfolding at_index
  at_index_ne i j ne = ground arith
