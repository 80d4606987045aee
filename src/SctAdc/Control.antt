-- ===== src/SctAdc/Control.antt =====
-- Starting, stopping and setting the timer of sct_adc.c: what becomes of the bits of its control
-- register and of the values.
use halm_examples.Base.{
  ℕ, ◌+◌, ◌-◌, ◌%◌, ◌^◌, ◌≤◌, ◌<◌, ◌≡◌, refl, not, some, arith, ltb, leb, sub32, min, true,
}
use halm_examples.Base.Bits.{bit, bit-le-one, bit-set_mask, bit-clear_mask, clear_mask, set_mask}
use halm_examples.Sct.{Defs, Library}
use halm_examples.Sct.Writes.{at_part_self, at_part_other, at_index_self}
use halm_examples.SctAdc.{SctAdc}
use halm_examples.SctAdc.Runtime.{
  tmr_enable, tmr_disable, tmr_get_overflow, tmr_set_overflow, tmr_get_value, tmr_set_value,
  put_overflow, put_value,
}

module _ (l : Library) (k : Defs) where
  -- The control bits of `s'` are those of `s` but for the bits of `m`, which are clear; the other
  -- part of the timer is left alone.
  pub record Cleared (m : ℕ) (s s' : SctAdc l k) : Type 0 where
    pub own :
        (i : ℕ)
        → i < 32
        → bit (s'.reg.ctrl s.part) i ≡ min (bit (s.reg.ctrl s.part) i) (1 - bit m i)
    pub other : s'.reg.ctrl (not s.part) ≡ s.reg.ctrl (not s.part)

  clear-set :
      (c m i : ℕ)
      → m < 2 ^ 32
      → i < 32
      → bit (clear_mask (set_mask c m) m) i ≡ min (bit c i) (1 - bit m i)
  clear-set c m i h lt = omega (
    arith,
    bit-clear_mask (set_mask c m) m i h lt,
    bit-set_mask c m i,
    bit-le-one c i,
    bit-le-one m i,
  )

  -- Disabling and enabling the timer clears the HALT bits and acknowledges its own events; all
  -- other control bits and the other part of the timer are as they were. While it is disabled, the
  -- HALT bits are set.
  pub tmr_enable-tmr_disable :
      (s : SctAdc l k)
      → k.ctrl_halt < 2 ^ 32
      → Cleared k.ctrl_halt s (tmr_enable l k (tmr_disable l k s))
        × ((tmr_enable l k (tmr_disable l k s)).reg.evflag ≡ s.mask)
        × ((i : ℕ)
            → i < 32
            → bit k.ctrl_halt i ≡ 1
            → bit ((tmr_disable l k s).reg.ctrl s.part) i ≡ 1)
  unfolding tmr_enable tmr_disable
  tmr_enable-tmr_disable s h = (
    record {
      own = λ i lt.
          rw (at_part_self, at_part_self) (clear-set (s.reg.ctrl s.part) k.ctrl_halt i h lt);
      other = rw (at_part_other, at_part_other);
    },
    refl,
    λ i lt e. rw at_part_self (
        omega (
          arith,
          bit-set_mask (s.reg.ctrl s.part) k.ctrl_halt i,
          bit-le-one (s.reg.ctrl s.part) i,
        )),
  )

  -- An overflow of 1 to 65535 ticks is what is read back. Setting it leaves the timer's control
  -- bits as they were, but for those of STOP, which are clear.
  pub tmr_get_overflow-tmr_set_overflow :
      (s : SctAdc l k) (n : ℕ)
      → 0 < n
      → n < 2 ^ 16
      → k.ctrl_stop < 2 ^ 32
      → (s' : SctAdc l k) × (tmr_set_overflow l k n s ≡ some s')
        × (tmr_get_overflow l k s' ≡ n)
        × Cleared k.ctrl_stop s s'
  unfolding tmr_set_overflow tmr_get_overflow put_overflow
  tmr_get_overflow-tmr_set_overflow s n pos lt h =
      let e : sub32 n 1 % 2 ^ 16 + 1 ≡ n = omega arith in
      let t : ltb n (2 ^ 16) ≡ true = ground arith in
      (
        put_overflow l k n s,
        rw t,
        rw (at_index_self, at_part_self, e),
        record {
          own = λ i small.
              rw (at_part_self, at_part_self) (clear-set (s.reg.ctrl s.part) k.ctrl_stop i h small);
          other = rw (at_part_other, at_part_other);
        },
      )

  -- A value up to the period is what is read back, and is set in the same way.
  tmr_get_value-tmr_set_value :
      (s : SctAdc l k) (n : ℕ)
      → n ≤ s.reg.match s.reset s.part
      → s.reg.match s.reset s.part < 2 ^ 16
      → k.ctrl_stop < 2 ^ 32
      → (s' : SctAdc l k) × (tmr_set_value l k n s ≡ some s')
        × (tmr_get_value l k s' ≡ n)
        × Cleared k.ctrl_stop s s'
  unfolding tmr_set_value tmr_get_value put_value
  tmr_get_value-tmr_set_value s n le small h =
      let t : leb n (s.reg.match s.reset s.part) ≡ true = ground arith in
      let e : n % 2 ^ 16 ≡ n = omega arith in
      (
        put_value l k n s,
        rw t,
        rw (at_part_self, e),
        record {
          own = λ i lt.
              rw (at_part_self, at_part_self) (clear-set (s.reg.ctrl s.part) k.ctrl_stop i h lt);
          other = rw (at_part_other, at_part_other);
        },
      )
