-- ===== src/QspiNor/Tests.antt =====
-- A flash that keeps the bytes it gets, and the test on it.
use halm_examples.Base.{
  ℕ, ◌≡◌, ◌↔◌, refl, Bool, true, false, List, [], ◌∷◌, ◌++◌, map, if◌then◌else◌, ◌==◌, ◌&&◌, arith,
}
use halm_examples.QspiNor.{Bus, Mode, serial, dual, quad, DeviceInfo, pass}
use halm_examples.QspiNor.Identify.{IsFlash, IsSupported, request, pass-IsSupported}

record Chip : Type 0 where
  is_selected : Bool
  mode : Mode
  sent : List (Mode × ℕ)

abbrev same_mode : Mode → Mode → Bool
same_mode serial serial = true
same_mode dual dual = true
same_mode quad quad = true
same_mode m n = false

abbrev same : List (Mode × ℕ) → List (Mode × ℕ) → Bool
same [] [] = true
same (x ∷ xs) (y ∷ ys) = same_mode x.0 y.0 && (x.1 == y.1) && same xs ys
same xs ys = false

abbrev answer : List (Mode × ℕ) → List ℕ
answer xs =
    if same xs (request serial)
    then 0xEF ∷ 0x17 ∷ []
    else if same xs (request dual)
    then 0xEF ∷ 0x17 ∷ []
    else if same xs (request quad)
    then 0xEF ∷ 0x17 ∷ []
    else []

abbrev select : Bool → Chip → Chip
select true h = h
select false h = record h { is_selected = true; sent = [] }

abbrev bus : Bus
bus = record {
  Hw = Chip;
  pin_reset = λ h. select h.is_selected h;
  pin_set = λ h. record h { is_selected = false };
  set_mode = λ m h. record h { mode = m };
  write = λ xs h. record h {
    sent = if h.is_selected then h.sent ++ map (λ x. (h.mode, x)) xs else h.sent;
  };
  read = λ count h. (answer h.sent, h);
}

abbrev w25q128 : DeviceInfo
w25q128 = record { manufacturer = 0xEF; device = 0x17 }

selects :
    (b : Bool) (h : Chip) → b ≡ false → ((select b h).is_selected ≡ true) × ((select b h).sent ≡ [])
selects true h e = absurd (ground (arith, e))
selects false h e = (refl, refl)

answers : (m : Mode) (xs : List (Mode × ℕ)) → xs ≡ request m → answer xs ≡ 0xEF ∷ 0x17 ∷ []
unfolding request
answers serial xs e = rw e refl
answers dual xs e = rw e refl
answers quad xs e = rw e refl

w25q128-IsFlash : IsFlash bus w25q128
w25q128-IsFlash = record {
  is_selected = λ h. h.is_selected;
  mode = λ h. h.mode;
  sent = λ h. h.sent;
  selects = λ h e. selects h.is_selected h e;
  releases = λ h. refl;
  mode-set_mode = λ m h. refl;
  selected-set_mode = λ m h. refl;
  sent-set_mode = λ m h. refl;
  mode-write = λ xs h. refl;
  selected-write = λ xs h. refl;
  sent-write = λ xs h e. rw e refl;
  answers = λ m h e r. answers m h.sent r;
}

abbrev stack : DeviceInfo
stack = record { manufacturer = 0xAA; device = 0x55 }

abbrev start : Chip
start = record { is_selected = false; mode = quad; sent = [] }

pass-IsSupported_example :
    (((pass bus true stack start).0 ≡ true) ↔ IsSupported bus w25q128 w25q128-IsFlash)
    × ((pass bus true stack start).1.is_selected ≡ false)
unfolding w25q128-IsFlash
pass-IsSupported_example = pass-IsSupported bus w25q128 w25q128-IsFlash true stack start refl
