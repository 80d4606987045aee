-- ===== src/Flash/Sample.antt =====
-- A chip that keeps to the data sheet, for the examples: it follows the command sequences by a
-- state machine, and shows that the assumptions on the chip can be met.
use halm_examples.Base.{
  ℕ, ◌+◌, ◌*◌, ◌/◌, ◌%◌, ◌^◌, ◌<◌, ◌≡◌, refl, ◌&&◌, arith, ltb, leb, ◌==◌, if◌then◌else◌,
}
use halm_examples.Flash.{Bus, stores, erase_sequence, program_sequence}
use halm_examples.Flash.Chip.{IsCfi, Programs, Erases}

-- How much of a sequence has been seen.
pub data Phase : Type 0 where
  read unlock unlocked program erase erase_unlock erase_unlocked : Phase

pub record Model : Type 0 where
  pub memory : ℕ → ℕ
  pub phase : Phase

abbrev pub cell : Model → ℕ → ℕ
cell c i = c.memory i % 2 ^ 16

abbrev pub fill : (ℕ → ℕ) → ℕ → ℕ → ℕ → ℕ
fill m i n j = if leb i j && ltb j (i + n) then 0xFFFF else m j

abbrev pub put : (ℕ → ℕ) → ℕ → ℕ → ℕ → ℕ
put m i v j = if i == j then v else m j

abbrev pub step : (ℕ → ℕ) → Phase → ℕ → ℕ → Model
step m read i v = record {
  memory = m;
  phase = if (i == 0x5555) && (v == 0xAA) then unlock else read;
}
step m unlock i v = record {
  memory = m;
  phase = if (i == 0x2AAA) && (v == 0x55) then unlocked else read;
}
step m unlocked i v = record {
  memory = m;
  phase = if v == 0xA0 then program else if v == 0x80 then erase else read;
}
step m program i v = record { memory = put m i v; phase = read }
step m erase i v = record {
  memory = m;
  phase = if (i == 0x5555) && (v == 0xAA) then erase_unlock else read;
}
step m erase_unlock i v = record {
  memory = m;
  phase = if (i == 0x2AAA) && (v == 0x55) then erase_unlocked else read;
}
step m erase_unlocked i v = record {
  memory = if v == 0x30 then fill m i 2048 else if v == 0x50 then fill m i 32768 else m;
  phase = read;
}

abbrev pub bus : Bus
bus = record {
  Chip = Model;
  word = cell;
  store = λ i v c. step c.memory c.phase i v;
  udelay = λ n c. c;
  mdelay = λ n c. c;
}

abbrev pub Ready : Model → Type 0
Ready c = c.phase ≡ read

module _ (c : Model) (a : ℕ) (r : Ready c) where
  pub program_lem :
      (v : ℕ)
      → v < 2 ^ 16
      → let c' = stores bus (program_sequence a v) c in Ready c' × Programs bus c c' (a / 2) v
  program_lem v h = rw r (refl, record { target = λ e. ground arith; other = λ j ne. ground arith })

  pub sector_lem :
      let c' = stores bus (erase_sequence a 0x30) c in Ready c' × Erases bus c c' (a / 2) 2048
  sector_lem =
      rw r (refl, record { target = λ j lo hi. ground arith; other = λ j far. ground arith })

  pub block_lem :
      let c' = stores bus (erase_sequence a 0x50) c in Ready c' × Erases bus c c' (a / 2) 32768
  block_lem =
      rw r (refl, record { target = λ j lo hi. ground arith; other = λ j far. ground arith })

abbrev pub conforming : (words : ℕ) → IsCfi bus words
conforming words = record {
  IsReady = Ready;
  word_lt = λ c i. omega arith;
  program = λ c a v r _ h. program_lem c a r v h;
  sector = λ c a r _ _. sector_lem c a r;
  block = λ c a r _ _. block_lem c a r;
}

-- A chip with some old data in it.
abbrev pub used : Model
used = record { memory = λ i. i * 7; phase = read }

abbrev pub blank : Model
blank = record { memory = λ i. 0xFFFF; phase = read }
