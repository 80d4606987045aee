-- ===== src/EmcFlash/Correct.antt =====
-- The test of emc_flash/main.c succeeds on a chip that keeps to its data sheet.
use halm_examples.Base.{
  ◌>>=◌, ℕ, zero, suc, ◌+◌, ◌*◌, ◌/◌, ◌%◌, ◌^◌, ◌≤◌, ◌<◌, ◌≡◌, ◌∙◌, refl, Bool, true, false, ◌&&◌,
  Option, arith, length, ◌==◌, add32, take, take-all,
}
use halm_examples.Flash.{
  Bus, ok, position, FlashCfi, interface_get_param, interface_set_param, advance,
}
use halm_examples.Flash.Chip.{IsCfi}
use halm_examples.Flash.Valid.{IsValid}
use halm_examples.Flash.Transfer.{
  All, bytes, Holds, IsErased, SameOutside, Done, done, Stored, mono, interface_write_lem,
}
use halm_examples.Flash.RoundTrip.{interface_read_lem}
use halm_examples.Flash.Params.{interface_set_param_lem}
use halm_examples.EmcFlash.{is_ok, stored, pattern, decode, counts_from, program, verify}

pub bind :
    {A B : Type 0} {P : A → Type 0} {Q : B → Type 0} {r : Option A} {f : A → Option B}
    → Done P r
    → ((a : A) → P a → Done Q (f a))
    → Done Q (r >>= f)
bind (done p) next = next _ p

length-pattern : (i n : ℕ) → length (pattern i n) ≡ 2 * n
unfolding pattern
length-pattern i zero = refl
length-pattern i (suc n) = omega (arith, length-pattern (i + 1) n)

pattern-lt : (i n : ℕ) → All (λ w. w < 2 ^ 16) (pattern i n)
unfolding pattern
pattern-lt i zero = tt
pattern-lt i (suc n) = (omega arith, (omega arith, pattern-lt (i + 1) n))

-- The values read back are the values written.
counts_from-decode :
    (i n : ℕ) → i + n < 2 ^ 32 → counts_from i (decode (bytes (pattern i n))) ≡ true
unfolding pattern
counts_from-decode i zero h = refl
counts_from-decode i (suc n) h = ground (arith, counts_from-decode (i + 1) n)

module _ (b : Bus) {words : ℕ} (d : IsCfi b words) where
  open b use {Chip}

  -- The interface with its position at `x`.
  abbrev pub at : FlashCfi → ℕ → FlashCfi
  at self x = record self { offset = x }

  module _ (self : FlashCfi) (v : IsValid self) (even_size : self.size % 2 ≡ 0)
      (room : self.size ≤ 2 * words) (addr len : ℕ) (even : addr % 2 ≡ 0)
      (inside : addr + 4 * (len / 4) < self.size) where
    abbrev pub n : ℕ
    n = len / 4

    moved_lem :
        (c : Chip)
        → d.IsReady c
        → Done (λ out. out ≡ (ok, at self addr, c)) (interface_set_param b self position addr c)
    moved_lem c ready =
        mono (interface_set_param_lem b d self c ready room position addr)
          λ out m. m.accepted (omega arith)

    -- What `program` leaves behind.
    pub record Programmed (c : Chip) (out : Bool × FlashCfi × Chip) : Type 0 where
      pub success : out.0 ≡ true
      pub next : out.1 ≡ at self (addr + 4 * n)
      pub ready : d.IsReady out.2
      pub holds : Holds b out.2 (addr / 2) (pattern 0 n)
      pub same : SameOutside b c out.2 (addr / 2) (2 * n)

    advance_lem : advance (at self addr) (4 * n) ≡ at self (addr + 4 * n)
    unfolding advance
    advance_lem =
        let small = v.small in
        let e : add32 addr (4 * n) ≡ addr + 4 * n = omega arith in
        let t : (addr + 4 * n == self.size) ≡ false = ground arith in rw (e, t)

    stored_lem :
        (c : Chip) (out : ℕ × FlashCfi × Chip)
        → Stored b d (at self addr) (pattern 0 n) c out
        → Programmed c (
          (out.0 == 2 * length (pattern 0 n))
              && is_ok (interface_get_param out.1 position).0
              && (stored (interface_get_param out.1 position).1
                  == add32 addr (2 * length (pattern 0 n))),
          out.1,
          out.2,
        )
    unfolding interface_get_param
    stored_lem c out s =
        let small = v.small in
        let l = length-pattern 0 n in
        let k : out.0 ≡ 4 * n = omega (arith, s.count) in
        let next : out.1 ≡ at self (addr + 4 * n) = s.moved ∙ (rw k advance_lem) in
        let all : take (out.0 / 2) (pattern 0 n) ≡ pattern 0 n =
          take-all (out.0 / 2) (pattern 0 n) (omega arith) in
        let w = s.written in
        record {
          success = rw next (ground arith);
          next = next;
          ready = w.ready;
          holds = rw all at (w.holds);
          same = λ j far. w.same j (rw all (rw l far));
        }

    pub program_lem :
        (c : Chip)
        → d.IsReady c
        → IsErased b c (addr / 2) (2 * n)
        → Done (Programmed c) (program b self addr len c)
    unfolding program interface_get_param
    program_lem c ready erased = bind (moved_lem c ready) λ out m.
        let l = length-pattern 0 n in
        let size : 4 * n ≡ 2 * length (pattern 0 n) = omega arith in
        let write =
          interface_write_lem b d (at self addr) (record { inside = omega arith; small = v.small })
            c ready (pattern 0 n) even_size even room (omega (arith, v.small)) (pattern-lt 0 n)
            (λ j lo hi. erased j lo (omega arith)) in
        rw (m, size) (bind write λ out s. done (stored_lem c out s))

    pub verify_lem :
        (c : Chip)
        → d.IsReady c
        → Holds b c (addr / 2) (pattern 0 n)
        → Done (λ out. out ≡ (true, at self (addr + 4 * n), c)) (verify b self addr len c)
    unfolding verify interface_get_param
    verify_lem c ready holds = bind (moved_lem c ready) λ out m.
        let l = length-pattern 0 n in
        let small = v.small in
        let size : 4 * n ≡ 2 * length (pattern 0 n) = omega arith in
        let fresh : IsValid (at self addr) = record { inside = omega arith; small = v.small } in
        let read =
          interface_read_lem b (at self addr) (pattern 0 n) c fresh even (omega arith) holds in
        let moved = advance_lem in
        let counted = counts_from-decode 0 n (omega arith) in
        let e : add32 addr (4 * n) ≡ addr + 4 * n = omega arith in
        let t : (4 * n == 4 * n) ≡ true = ground arith in
        let u : (addr + 4 * n == addr + 4 * n) ≡ true = ground arith in
        rw (m, size, read, ← size, moved, counted, e, t, u) (done refl)
