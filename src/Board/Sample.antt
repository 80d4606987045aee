-- ===== src/Board/Sample.antt =====
-- A small chip and library, on which the programs of the files board.c run: a clock is ready one
-- pass after its start, and the objects are numbered.
use halm_examples.Base.{
  ℕ, suc, ◌<◌, ◌≡◌, refl, ap, ◌∙◌, Bool, true, false, Option, none, some, arith, ◌==◌, Bool-cases,
  inl, inr,
}
use halm_examples.Board.{Hardware, input_named}
use halm_examples.Board.Known.{put}
use halm_examples.Board.Laws.{Keeps, Soon, IsHardware, passes}

pub data Age : Type 0 where
  off starting running : Age

pub record Chip : Type 0 where
  pub age : ℕ → Age
  pub input : ℕ → Option ℕ
  pub objects : ℕ

abbrev pub runs : Age → Bool
runs off = false
runs starting = false
runs running = true

abbrev pub older : Age → Age
older off = off
older starting = running
older running = running

abbrev pub switch : ℕ → Age → Option ℕ → Chip → Chip
switch c a o h = record h { age = put c a h.age; input = put c o h.input }

abbrev pub later : Chip → Chip
later h = record h { age = λ c. older (h.age c) }

abbrev pub known_input : Option (Option ℕ) → Option ℕ
known_input none = none
known_input (some o) = o

abbrev pub sample : Hardware
sample = record {
  Hw = Chip;
  enable_clock = λ c s. switch c starting (known_input (input_named s));
  disable_clock = λ c. switch c off none;
  is_ready = λ c h. runs (h.age c);
  origin = λ c h. h.input c;
  frequency_of = λ c h. 204000000;
  measured = λ n o h. 12000000;
  create_object = λ n s h. (some h.objects, record h { objects = suc h.objects });
  effect = λ n s h. h;
  answer = λ n h. (true, h);
  finished = λ n o h. true;
  pass = later;
}

-- After reset.
abbrev pub start : Chip
start = record { age = λ _. off; input = λ _. none; objects = 0 }

switch-Keeps :
    (c : ℕ) (a : Age) (o : Option ℕ) (h : Chip) → Keeps sample (some c) h (switch c a o h)
unfolding put
switch-Keeps c a o h = record {
  still_ready = λ d ne e. elim (Bool-cases (c == d)) [
    | inl hit ↦ let same : c ≡ d = ground arith in absurd (ne (ap some same))
    | inr miss ↦ rw miss e
  ];
  same_origin = λ d ne. elim (Bool-cases (c == d)) [
    | inl hit ↦ let same : c ≡ d = ground arith in absurd (ne (ap some same))
    | inr miss ↦ rw miss refl
  ];
}

switch_origin : (c : ℕ) (a : Age) (o : Option ℕ) (h : Chip) → (switch c a o h).input c ≡ o
unfolding put
switch_origin c a o h = ground arith

older-runs : (a : Age) → runs a ≡ true → runs (older a) ≡ true
older-runs off e = e
older-runs starting e = refl
older-runs running e = e

starts-Soon :
    (c : ℕ) (o : Option ℕ) (h : Chip)
    → Soon sample 1 (λ h'. runs (h'.age c)) (switch c starting o h)
unfolding put passes
starts-Soon c o h = record { time = 1; time_le = omega arith; true_then = ground arith }

pub sample-IsHardware : IsHardware sample
unfolding passes
sample-IsHardware = record {
  limit = 1;
  enable_keeps = λ c s h. switch-Keeps c starting (known_input (input_named s)) h;
  enable_origin =
      λ c s o h e. switch_origin c starting (known_input (input_named s)) h ∙ ap known_input e;
  enable_starts = λ c s h _. starts-Soon c (known_input (input_named s)) h;
  disable_keeps = λ c h. switch-Keeps c off none h;
  create_keeps = λ n s h. record { still_ready = λ d ne e. e; same_origin = λ d ne. refl };
  effect_keeps = λ n s h. record { still_ready = λ d ne e. e; same_origin = λ d ne. refl };
  answer_keeps = λ n h. record { still_ready = λ d ne e. e; same_origin = λ d ne. refl };
  pass_keeps =
      λ h. record { still_ready = λ d ne e. older-runs (h.age d) e; same_origin = λ d ne. refl };
  finishes = λ n o h. record { time = 0; time_le = omega arith; true_then = refl };
}

pub limit_lt : sample-IsHardware.limit < 2
unfolding sample-IsHardware
limit_lt = omega arith

-- The chip where nothing has been stored: each answer is no.
abbrev pub fresh_sample : Hardware
fresh_sample = record sample { answer = λ n h. (false, h) }

fresh_Keeps : {c : Option ℕ} {h h' : Chip} → Keeps sample c h h' → Keeps fresh_sample c h h'
fresh_Keeps k = record { still_ready = k.still_ready; same_origin = k.same_origin }

fresh_starts-Soon :
    (c : ℕ) (o : Option ℕ) (h : Chip)
    → Soon fresh_sample 1 (λ h'. runs (h'.age c)) (switch c starting o h)
unfolding put passes
fresh_starts-Soon c o h = record { time = 1; time_le = omega arith; true_then = ground arith }

pub fresh_sample-IsHardware : IsHardware fresh_sample
unfolding sample-IsHardware passes
fresh_sample-IsHardware = record {
  limit = 1;
  enable_keeps = λ c s h. fresh_Keeps (switch-Keeps c starting (known_input (input_named s)) h);
  enable_origin =
      λ c s o h e. switch_origin c starting (known_input (input_named s)) h ∙ ap known_input e;
  enable_starts = λ c s h _. fresh_starts-Soon c (known_input (input_named s)) h;
  disable_keeps = λ c h. fresh_Keeps (switch-Keeps c off none h);
  create_keeps = λ n s h. record { still_ready = λ d ne e. e; same_origin = λ d ne. refl };
  effect_keeps = λ n s h. record { still_ready = λ d ne e. e; same_origin = λ d ne. refl };
  answer_keeps = λ n h. record { still_ready = λ d ne e. e; same_origin = λ d ne. refl };
  pass_keeps =
      λ h. record { still_ready = λ d ne e. older-runs (h.age d) e; same_origin = λ d ne. refl };
  finishes = λ n o h. record { time = 0; time_le = omega arith; true_then = refl };
}

pub fresh_limit_lt : fresh_sample-IsHardware.limit < 2
unfolding fresh_sample-IsHardware
fresh_limit_lt = omega arith
