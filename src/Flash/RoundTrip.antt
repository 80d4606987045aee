-- ===== src/Flash/RoundTrip.antt =====
-- What `interfaceWrite` of flash_cfi.c stores is what `interfaceRead` gives back.
use halm_examples.Base.{
  ℕ, suc, ◌+◌, ◌*◌, ◌/◌, ◌%◌, ◌^◌, ◌≤◌, ◌<◌, ◌≡◌, refl, some, List, [], ◌∷◌, arith, take, take-all,
  length, ◌==◌, true,
}
use halm_examples.Flash.{
  Bus, FlashCfi, advance, byte, copy_bytes, clamp_length, interface_read, interface_write,
}
use halm_examples.Flash.Chip.{IsCfi}
use halm_examples.Flash.Valid.{IsValid, clamp_length_lem}
use halm_examples.Flash.Transfer.{All, bytes, Holds, IsErased, Done, mono, interface_write_lem}

-- The interface, used after `ifSetParam(interface, IF_POSITION, …)` went back.
abbrev pub rewound : FlashCfi → FlashCfi → FlashCfi
rewound self moved = record moved { offset = self.offset }

module _ (b : Bus) where
  open b use {Chip, word}

  -- Bytes copied from words that read `vs` are the bytes of `vs`.
  pub copy_bytes-bytes :
      (vs : List ℕ) (c : Chip) (a : ℕ)
      → a % 2 ≡ 0
      → Holds b c (a / 2) vs
      → copy_bytes b c a (2 * length vs) ≡ bytes vs
  unfolding copy_bytes
  copy_bytes-bytes [] c a even h = refl
  copy_bytes-bytes (v ∷ vs) c a even h =
      let e : 2 * suc (length vs) ≡ suc (suc (2 * length vs)) = omega arith in
      let lo : byte b c a ≡ v % 256 = rw (even, h.0) in
      let odd : (a + 1) % 2 ≡ 1 = omega arith in
      let same : (a + 1) / 2 ≡ a / 2 = omega arith in
      let hi : byte b c (a + 1) ≡ v / 256 = rw (odd, same, h.0) in
      let next : (a + 1 + 1) / 2 ≡ a / 2 + 1 = omega arith in
      let rest : copy_bytes b c (a + 1 + 1) (2 * length vs) ≡ bytes vs =
        copy_bytes-bytes vs c (a + 1 + 1) (omega arith) (rw next h.1) in
      rw (e, lo, hi, rest)

  -- Inside the memory and from an even position, `interfaceRead` copies what was asked for.
  pub interface_read_lem :
      (self : FlashCfi) (vs : List ℕ) (c : Chip)
      → IsValid self
      → self.offset % 2 ≡ 0
      → self.offset + 2 * length vs ≤ self.size
      → Holds b c (self.offset / 2) vs
      → interface_read b self (2 * length vs) c
        ≡ some (bytes vs, 2 * length vs, advance self (2 * length vs))
  unfolding interface_read
  interface_read_lem self vs c v even fits h =
      let n : clamp_length self (2 * length vs) ≡ 2 * length vs =
        omega (arith, v.small, clamp_length_lem self v (2 * length vs) (omega (arith, v.small))) in
      let t : (2 * length vs % 2 == 0) ≡ true = ground arith in
      rw (n, t, copy_bytes-bytes vs c self.offset even h)

  module _ {words : ℕ} (d : IsCfi b words) (self : FlashCfi) (v : IsValid self) (c : Chip)
      (ready : d.IsReady c) where
    -- A buffer of words that fits behind an even position in erased memory of even size is
    -- written whole, and read back unchanged from the same position. Reading leaves the position
    -- where writing left it, and the chip is ready for the next command.
    pub read-write :
        (vs : List ℕ)
        → self.size % 2 ≡ 0
        → self.offset % 2 ≡ 0
        → self.size ≤ 2 * words
        → self.offset + 2 * length vs ≤ self.size
        → All (λ w. w < 2 ^ 16) vs
        → IsErased b c (self.offset / 2) (length vs)
        → Done
            (λ out.
              (out.0 ≡ 2 * length vs)
              × d.IsReady out.2
              × (interface_read b (rewound self out.1) (2 * length vs) out.2
                  ≡ some (bytes vs, 2 * length vs, out.1)))
            (interface_write b self (2 * length vs) vs c)
    unfolding advance
    read-write vs even_size even room fits wide erased =
        let valid = v.small in
        mono
          (interface_write_lem b d self v c ready vs even_size even room (omega arith) wide
            (λ j lo hi. erased j lo (omega arith)))
          λ out s.
            let n : out.0 ≡ 2 * length vs = omega (arith, s.count) in
            let all : take (out.0 / 2) vs ≡ vs = take-all (out.0 / 2) vs (omega arith) in
            let w = s.written in
            let back : rewound self out.1 ≡ self = rw s.moved in
            let moved : out.1 ≡ advance self (2 * length vs) = rw (← n) s.moved in
            let holds : Holds b out.2 (self.offset / 2) vs = rw all at (w.holds) in
            (n, w.ready, rw (back, moved) (interface_read_lem self vs out.2 v even fits holds))
