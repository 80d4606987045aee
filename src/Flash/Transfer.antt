-- ===== src/Flash/Transfer.antt =====
-- `interfaceWrite` and `interfaceRead` of flash_cfi.c on a chip that keeps to its data sheet.
use halm_examples.Base.{
  ℕ, zero, suc, ◌+◌, ◌-◌, ◌*◌, ◌/◌, ◌%◌, ◌^◌, ◌≤◌, ◌<◌, ◌≡◌, ◌∙◌, refl, ◌⊎◌, inl, inr, Option, some,
  none, Option-cases, List, [], ◌∷◌, arith, min, take, length, length-take, true, add32, ◌==◌,
}
use halm_examples.Flash.{
  Bus, FlashCfi, stores, program_sequence, clamp_length, advance, write_word, write_words,
  interface_write,
}
use halm_examples.Flash.Chip.{IsCfi, Programs}
use halm_examples.Flash.Valid.{IsValid, clamp_length_lem}

-- A run that ends, in a chip of which `P` holds.
pub data Done {C : Type 0} (P : C → Type 0) : Option C → Type 0 where
  done : {c : C} → P c → Done P (some c)

pub mono :
    {C : Type 0} {P Q : C → Type 0} {r : Option C} → Done P r → ((c : C) → P c → Q c) → Done Q r
mono (done p) f = done (f _ p)

abbrev pub All {ℓ} : {A : Type ℓ} → (A → Type 0) → List A → Type 0
All P [] = Unit
All P (x ∷ xs) = P x × All P xs

-- The bytes of a sequence of 16-bit words, the lower one of a word first.
abbrev pub bytes : List ℕ → List ℕ
bytes [] = []
bytes (v ∷ vs) = v % 256 ∷ v / 256 ∷ bytes vs

module _ (b : Bus) where
  open b use {Chip, word, udelay}

  -- The words from index `i` on read `vs`.
  abbrev pub Holds : Chip → ℕ → List ℕ → Type 0
  Holds c i [] = Unit
  Holds c i (v ∷ vs) = (word c i ≡ v) × Holds c (i + 1) vs

  abbrev pub IsErased : Chip → ℕ → ℕ → Type 0
  IsErased c i n = (j : ℕ) → i ≤ j → j < i + n → word c j ≡ 0xFFFF

  abbrev pub SameOutside : Chip → Chip → ℕ → ℕ → Type 0
  SameOutside c c' i n = (j : ℕ) → (j < i) ⊎ (i + n ≤ j) → word c' j ≡ word c j

  -- What the write loop has done once it stops.
  pub record Written (words : ℕ) (d : IsCfi b words) (c c' : Chip) (i : ℕ) (vs : List ℕ)
      : Type 0 where
    pub ready : d.IsReady c'
    pub holds : Holds c' i vs
    pub same : SameOutside c c' i (length vs)

  module _ {words : ℕ} (d : IsCfi b words) where
    write_word_lem :
        (a v : ℕ) (c : Chip)
        → a % 2 ≡ 0
        → write_word b a v c ≡ some (udelay 10 (stores b (program_sequence a v) c))
    unfolding write_word
    write_word_lem a v c even = ground arith

    -- One round of the loop, in front of the others.
    Written-cons :
        (v : ℕ) (vs : List ℕ) (i : ℕ) (c c₁ : Chip)
        → word c i ≡ 0xFFFF
        → Programs b c c₁ i v
        → (c' : Chip) → Written words d c₁ c' (i + 1) vs
        → Written words d c c' i (v ∷ vs)
    Written-cons v vs i c c₁ blank step c' rest = record {
      ready = rest.ready;
      holds = (rest.same i (inl (omega arith)) ∙ step.target blank, rest.holds);
      same = λ j out. rest.same j (omega arith) ∙ step.other j (omega arith);
    }

    -- The loop programs every word of the input, in order, and no other word.
    pub write_words-Written :
        (vs : List ℕ) (a : ℕ) (c : Chip)
        → d.IsReady c
        → a % 2 ≡ 0
        → a / 2 + length vs ≤ words
        → a + 2 * length vs < 2 ^ 32
        → All (λ v. v < 2 ^ 16) vs
        → IsErased c (a / 2) (length vs)
        → Done (λ c'. Written words d c c' (a / 2) vs) (write_words b (length vs) a vs c)
    unfolding write_words
    write_words-Written [] a c ready even room small wide erased =
        done (record { ready = ready; holds = tt; same = λ j out. refl })
    write_words-Written (v ∷ vs) a c ready even room small wide erased =
        let c₁ : Chip = udelay 10 (stores b (program_sequence a v) c) in
        let (ready₁, step) = d.program c a v ready (omega arith) wide.0 in
        let e : add32 a 2 ≡ a + 2 = omega arith in
        let h : (a + 2) / 2 ≡ a / 2 + 1 = omega arith in
        let rest =
          write_words-Written vs (a + 2) c₁ ready₁ (omega arith) (omega arith) (omega arith) wide.1
            (λ j lo hi. step.other j (omega arith) ∙ erased j (omega arith) (omega arith)) in
        rw (write_word_lem a v c even, write_words, e)
          (mono rest λ c' w.
            Written-cons v vs (a / 2) c c₁ (erased (a / 2) (omega arith) (omega arith)) step c'
              (rw h at w))

    -- The loop looks at no more of the input than it has rounds.
    write_words-take :
        (k : ℕ) (vs : List ℕ) (a : ℕ) (c : Chip)
        → k ≤ length vs
        → write_words b k a vs c ≡ write_words b (length (take k vs)) a (take k vs) c
    unfolding write_words
    write_words-take zero vs a c h = refl
    write_words-take (suc k) [] a c h = absurd (omega arith)
    write_words-take (suc k) (v ∷ vs) a c h = elim (Option-cases (write_word b a v c)) [
      | inl e ↦ rw (e, write_words)
      | inr (c₁, e) ↦ rw (e, write_words) (write_words-take k vs (add32 a 2) c₁ (omega arith))
    ]

    -- What a transfer of up to `2 * length vs` bytes leaves.
    pub record Stored (self : FlashCfi) (vs : List ℕ) (c : Chip) (out : ℕ × FlashCfi × Chip)
        : Type 0 where
      pub count : out.0 ≡ min (2 * length vs) (self.size - self.offset)
      pub moved : out.1 ≡ advance self out.0
      pub written : Written words d c out.2 (self.offset / 2) (take (out.0 / 2) vs)

    All-take : (P : ℕ → Type 0) (k : ℕ) (vs : List ℕ) → All P vs → All P (take k vs)
    All-take P zero vs h = tt
    All-take P (suc k) [] h = tt
    All-take P (suc k) (v ∷ vs) h = (h.0, All-take P k vs h.1)

    -- The end of `interfaceWrite`, behind its loop.
    finish :
        (self : FlashCfi) (vs : List ℕ) (c : Chip) (n : ℕ)
        → n ≡ min (2 * length vs) (self.size - self.offset)
        → {r : Option Chip}
        → Done (λ c'. Written words d c c' (self.offset / 2) (take (n / 2) vs)) r
        → Done (Stored self vs c) (elim r [ none ↦ none | some c' ↦ some (n, advance self n, c') ])
    finish self vs c n e (done w) = done (record { count = e; moved = refl; written = w })

    module _ (self : FlashCfi) (v : IsValid self) (c : Chip) (ready : d.IsReady c) where
      -- Where position and size are even and the words to be programmed are erased,
      -- `interfaceWrite` stores as many words of the buffer as fit before the end of the memory,
      -- in order from the position on, changes no other word, and returns their bytes' number.
      pub interface_write_lem :
          (vs : List ℕ)
          → self.size % 2 ≡ 0
          → self.offset % 2 ≡ 0
          → self.size ≤ 2 * words
          → self.offset + 2 * length vs < 2 ^ 32
          → All (λ w. w < 2 ^ 16) vs
          → IsErased c (self.offset / 2) (min (length vs) ((self.size - self.offset) / 2))
          → Done (Stored self vs c) (interface_write b self (2 * length vs) vs c)
      unfolding interface_write
      interface_write_lem vs even_size even room small wide erased =
          let n = clamp_length self (2 * length vs) in
          let e : n ≡ min (2 * length vs) (self.size - self.offset) =
            clamp_length_lem self v (2 * length vs) small in
          let k : (n + 1) / 2 ≡ n / 2 = omega arith in
          let l : length (take (n / 2) vs) ≡ n / 2 = omega (arith, length-take (n / 2) vs) in
          let valid = v.inside in
          let valid' = v.small in
          let loop =
            write_words-Written (take (n / 2) vs) self.offset c ready even (omega arith)
              (omega arith) (All-take _ (n / 2) vs wide) (λ j lo hi. erased j lo (omega arith)) in
          let fed = write_words-take (n / 2) vs self.offset c (omega arith) in
          let t : (2 * length vs % 2 == 0) ≡ true = ground arith in
          rw (t, k, fed) (finish self vs c n e loop)
