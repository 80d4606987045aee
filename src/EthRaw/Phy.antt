-- ===== src/EthRaw/Phy.antt =====
-- The start of the PHY, `phyInit` of examples/lpc43xx_default/eth_raw/main.c.
use Prim.Native.Nat.{bit_and, bit_or}
use halm_examples.Base.{
  ℕ, zero, suc, ◌<◌, ◌≡◌, refl, ◌↔◌, Bool, true, false, ◌&&◌, not, arith, ◌==◌, if◌then◌else◌,
  Bool-cases, inl, inr,
}

-- The management interface and the PHY behind it, with the time that passes in `mdelay`.
pub record Mdio : Type 1 where
  pub Phy : Type 0
  pub set_address : ℕ → Phy → Phy
  pub set_position : ℕ → Phy → Phy
  pub read : Phy → ℕ × Phy
  pub write : ℕ → Phy → Phy
  pub mdelay : ℕ → Phy → Phy

abbrev pub bmcr : ℕ
bmcr = 0

abbrev pub bmsr : ℕ
bmsr = 1

abbrev pub idr1 : ℕ
idr1 = 2

abbrev pub idr2 : ℕ
idr2 = 3

abbrev pub has_mask : ℕ → ℕ → Bool
has_mask mask value = not (bit_and value mask == 0)

module _ (b : Mdio) where
  open b use {Phy, set_address, set_position, read, write, mdelay}

  unfoldable pub phy_read_reg : ℕ → Phy → ℕ × Phy
  phy_read_reg address p = read (set_position address p)

  unfoldable pub phy_write_reg : (address value : ℕ) → Phy → Phy
  phy_write_reg address value p = write value (set_position address p)

  -- The three waiting loops: whether the test has been met by one of the values read.
  unfoldable pub wait : (rounds : ℕ) → (ℕ → Bool) → ℕ → Phy → Bool × Phy
  wait zero test address p = (false, p)
  wait (suc rounds) test address p =
      let (value, p') = phy_read_reg address p in
      let rest = wait rounds test address (mdelay 10 p') in if test value then (true, p') else rest

  -- From the check of the identification on.
  unfoldable pub negotiate : Phy → Bool × Phy
  negotiate p =
      let p₁ = phy_write_reg bmcr (bit_or 0x1000 0x0200) p in
      let (ended, p₂) = wait 1000 (has_mask 0x0020) bmsr p₁ in
      if ended then wait 1000 (has_mask 0x0004) bmsr p₂ else (false, p₂)

  unfoldable pub phy_reset : Phy → Phy
  phy_reset p =
      (wait 1000 (λ value. not (has_mask 0x8000 value)) bmcr
        (phy_write_reg bmcr 0x8000 (set_address 0 p))).1

  unfoldable pub phy_init : Phy → Bool × Phy
  phy_init p =
      let (id1, p₁) = phy_read_reg idr1 (phy_reset p) in
      let (id2, p₂) = phy_read_reg idr2 p₁ in
      if (id1 == 0x0007) && (id2 == 0xC0F1) then negotiate p₂ else (false, p₂)

  -- The PHY after some rounds of a loop that has not ended.
  unfoldable pub after : (rounds : ℕ) → (address : ℕ) → Phy → Phy
  after zero address p = p
  after (suc rounds) address p = after rounds address (mdelay 10 (phy_read_reg address p).1)

  -- One of the first `rounds` values read meets the test.
  pub record Meets (rounds : ℕ) (test : ℕ → Bool) (address : ℕ) (p : Phy) : Type 0 where
    pub round : ℕ
    pub round_lt : round < rounds
    pub met : test (phy_read_reg address (after round address p)).0 ≡ true

  wait→Meets :
      (rounds : ℕ) (test : ℕ → Bool) (address : ℕ) (p : Phy)
      → (wait rounds test address p).0 ≡ true
      → Meets rounds test address p
  unfolding wait after
  wait→Meets zero test address p h = absurd (cc)
  wait→Meets (suc rounds) test address p h = elim (Bool-cases (test (phy_read_reg address p).0)) [
    | inl hit ↦ record { round = 0; round_lt = omega arith; met = hit }
    | inr miss ↦
        let ih =
          wait→Meets rounds test address (mdelay 10 (phy_read_reg address p).1)
            (rw (miss, wait) at h) in
        record { round = suc ih.round; round_lt = omega (arith, ih.round_lt); met = ih.met }
  ]

  Meets→wait :
      (rounds k : ℕ) (test : ℕ → Bool) (address : ℕ) (p : Phy)
      → k < rounds
      → test (phy_read_reg address (after k address p)).0 ≡ true
      → (wait rounds test address p).0 ≡ true
  unfolding wait after
  Meets→wait zero k test address p lt h = absurd (omega arith)
  Meets→wait (suc rounds) zero test address p lt h = rw (h, wait) refl
  Meets→wait (suc rounds) (suc k) test address p lt h =
      elim (Bool-cases (test (phy_read_reg address p).0)) [
        | inl hit ↦ rw (hit, wait) refl
        | inr miss ↦
            rw (miss, wait)
              (Meets→wait rounds k test address (mdelay 10 (phy_read_reg address p).1) (omega arith)
                h)
      ]

  -- The PHY when it starts to negotiate.
  abbrev pub identified : Phy → Phy
  identified p = (phy_read_reg idr2 (phy_read_reg idr1 (phy_reset p)).1).1

  abbrev pub negotiating : Phy → Phy
  negotiating p = phy_write_reg bmcr (bit_or 0x1000 0x0200) (identified p)

  -- It is a LAN8720C, it has ended its negotiation in one of 1000 readings, and has had a link in
  -- one of 1000 readings after that.
  pub record IsUp (p : Phy) : Type 0 where
    pub low_id : (phy_read_reg idr1 (phy_reset p)).0 ≡ 0x0007
    pub high_id : (phy_read_reg idr2 (phy_read_reg idr1 (phy_reset p)).1).0 ≡ 0xC0F1
    pub negotiated : Meets 1000 (has_mask 0x0020) bmsr (negotiating p)
    pub linked :
        Meets 1000 (has_mask 0x0004) bmsr (wait 1000 (has_mask 0x0020) bmsr (negotiating p)).1

  phy_init-IsUp : (p : Phy) → (phy_init p).0 ≡ true → IsUp p
  unfolding phy_init negotiate
  phy_init-IsUp p h =
      elim (Bool-cases (
        ((phy_read_reg idr1 (phy_reset p)).0 == 0x0007)
        && ((phy_read_reg idr2 (phy_read_reg idr1 (phy_reset p)).1).0 == 0xC0F1))) [
          | inl id ↦
              let h' = rw id at h in
              elim (Bool-cases (wait 1000 (has_mask 0x0020) bmsr (negotiating p)).0) [
                | inl ended ↦ record {
                  low_id = ground arith;
                  high_id = ground arith;
                  negotiated = wait→Meets 1000 (has_mask 0x0020) bmsr (negotiating p) ended;
                  linked =
                      wait→Meets 1000 (has_mask 0x0004) bmsr
                        (wait 1000 (has_mask 0x0020) bmsr (negotiating p)).1 (rw ended at h');
                }
                | inr late ↦ let h'' = rw late at h' in absurd (cc)
              ]
          | inr other ↦ let h' = rw other at h in absurd (cc)
        ]

  IsUp-phy_init : (p : Phy) → IsUp p → (phy_init p).0 ≡ true
  unfolding phy_init negotiate
  IsUp-phy_init p u =
      let id : (((phy_read_reg idr1 (phy_reset p)).0 == 0x0007)
            && ((phy_read_reg idr2 (phy_read_reg idr1 (phy_reset p)).1).0 == 0xC0F1))
          ≡ true =
        rw (u.low_id, u.high_id) refl in
      let ended =
        Meets→wait 1000 u.negotiated.round (has_mask 0x0020) bmsr (negotiating p)
          u.negotiated.round_lt u.negotiated.met in
      let linked =
        Meets→wait 1000 u.linked.round (has_mask 0x0004) bmsr
          (wait 1000 (has_mask 0x0020) bmsr (negotiating p)).1 u.linked.round_lt u.linked.met in
      rw (id, ended) linked

  -- `phyInit` succeeds just for a PHY that has the right identification, ends its negotiation in
  -- one of 1000 readings and has a link in one of 1000 readings after that.
  pub phy_init_iff : (p : Phy) → ((phy_init p).0 ≡ true) ↔ IsUp p
  phy_init_iff p = (phy_init-IsUp p, IsUp-phy_init p)
