-- ===== src/QspiNor/Identify.antt =====
-- The test of examples/m48x_default/qspi_nor/main.c passes on the chips that it is meant for.
use halm_examples.Base.{
  ℕ, ◌≤◌, ◌≡◌, ◌↔◌, refl, sym, ◌∙◌, Bool, true, false, not, ◌&&◌, List, [], ◌∷◌, ◌++◌, map, arith,
  Bool-cases, inl, inr, if◌then◌else◌,
}
use halm_examples.QspiNor.{
  Bus, Mode, serial, dual, quad, DeviceInfo, fill, address, is_correct_capacity,
  is_correct_manufacturer, read_device_info, read_device_info_dual, read_device_info_quad,
  memory_test_sequence, pass,
}

-- What the data sheet asks to be sent, with the wires that carry each byte, before the chip gives its
-- identifiers: the command, the address 0, and over more wires a mode byte and, over four, the bytes
-- for which the chip waits.
unfoldable pub request : Mode → List (Mode × ℕ)
request serial = (serial, 0x90) ∷ map (λ x. (serial, x)) (0 ∷ 0 ∷ 0 ∷ [])
request dual = (serial, 0x92) ∷ map (λ x. (dual, x)) (0 ∷ 0 ∷ 0 ∷ 0xFF ∷ [])
request quad = (serial, 0x94) ∷ map (λ x. (quad, x)) (0 ∷ 0 ∷ 0 ∷ 0xFF ∷ 0 ∷ 0 ∷ [])

module _ (b : Bus) where
  open b use {Hw, pin_reset, pin_set, set_mode, write, read}

  -- A chip with such identifiers behind the interface: `sent` are the bytes since it has been
  -- selected, and it answers a request that is followed by a read of two bytes.
  pub record IsFlash (info : DeviceInfo) : Type 0 where
    pub is_selected : Hw → Bool
    pub mode : Hw → Mode
    pub sent : Hw → List (Mode × ℕ)
    pub selects :
        (h : Hw)
        → is_selected h ≡ false
        → (is_selected (pin_reset h) ≡ true) × (sent (pin_reset h) ≡ [])
    pub releases : (h : Hw) → is_selected (pin_set h) ≡ false
    pub mode-set_mode : (m : Mode) (h : Hw) → mode (set_mode m h) ≡ m
    pub selected-set_mode : (m : Mode) (h : Hw) → is_selected (set_mode m h) ≡ is_selected h
    pub sent-set_mode : (m : Mode) (h : Hw) → sent (set_mode m h) ≡ sent h
    pub mode-write : (xs : List ℕ) (h : Hw) → mode (write xs h) ≡ mode h
    pub selected-write : (xs : List ℕ) (h : Hw) → is_selected (write xs h) ≡ is_selected h
    pub sent-write :
        (xs : List ℕ) (h : Hw)
        → is_selected h ≡ true
        → sent (write xs h) ≡ sent h ++ map (λ x. (mode h, x)) xs
    pub answers :
        (m : Mode) (h : Hw)
        → is_selected h ≡ true
        → sent h ≡ request m
        → (read 2 h).0 ≡ info.manufacturer ∷ info.device ∷ []

  module _ (info : DeviceInfo) (d : IsFlash info) where
    open d use {
      is_selected, mode, sent, selects, releases, mode-set_mode, selected-set_mode, sent-set_mode,
      mode-write, selected-write, sent-write, answers,
    }

    -- The chip has been selected and has got these bytes; the next ones go over the wires of `m`.
    record HasGot (m : Mode) (xs : List (Mode × ℕ)) (h : Hw) : Type 0 where
      selected : is_selected h ≡ true
      wires : mode h ≡ m
      got : sent h ≡ xs

    write-HasGot :
        {m : Mode} {xs : List (Mode × ℕ)} {h : Hw} (ys : List ℕ)
        → HasGot m xs h
        → HasGot m (xs ++ map (λ x. (m, x)) ys) (write ys h)
    write-HasGot {m} {xs} {h} ys g = record {
      selected = selected-write ys h ∙ g.selected;
      wires = mode-write ys h ∙ g.wires;
      got = rw (sent-write ys h g.selected, g.got, g.wires) refl;
    }

    set_mode-HasGot :
        {m : Mode} {xs : List (Mode × ℕ)} {h : Hw} (n : Mode)
        → HasGot m xs h
        → HasGot n xs (set_mode n h)
    set_mode-HasGot {m} {xs} {h} n g = record {
      selected = selected-set_mode n h ∙ g.selected;
      wires = mode-set_mode n h;
      got = sent-set_mode n h ∙ g.got;
    }

    start-HasGot :
        (h : Hw) → is_selected h ≡ false → HasGot serial [] (set_mode serial (pin_reset h))
    start-HasGot h e =
        let (on, nothing) = selects h e in
        record {
          selected = selected-set_mode serial (pin_reset h) ∙ on;
          wires = mode-set_mode serial (pin_reset h);
          got = sent-set_mode serial (pin_reset h) ∙ nothing;
        }

    -- The identifiers have been read and the chip is released.
    abbrev Identifies : DeviceInfo × Hw → Type 0
    Identifies r = (r.0 ≡ info) × (is_selected r.1 ≡ false)

    read_lem :
        {n : Mode} (m : Mode) (stack : DeviceInfo) (h : Hw)
        → HasGot n (request m) h
        → Identifies (fill (read 2 h).0 stack, pin_set (read 2 h).1)
    unfolding fill
    read_lem m stack h g = (rw (answers m h g.selected g.got) refl, releases (read 2 h).1)

    read_device_info_lem :
        (stack : DeviceInfo) (h : Hw)
        → is_selected h ≡ false
        → Identifies (read_device_info b stack h)
    unfolding read_device_info request
    read_device_info_lem stack h e =
        read_lem serial stack _ (write-HasGot address (write-HasGot (0x90 ∷ []) (start-HasGot h e)))

    read_device_info_dual_lem :
        (stack : DeviceInfo) (h : Hw)
        → is_selected h ≡ false
        → Identifies (read_device_info_dual b stack h)
    unfolding read_device_info_dual request
    read_device_info_dual_lem stack h e =
        let command = write-HasGot (0x92 ∷ []) (start-HasGot h e) in
        read_lem dual stack _
          (write-HasGot (0xFF ∷ []) (write-HasGot address (set_mode-HasGot dual command)))

    read_device_info_quad_lem :
        (stack : DeviceInfo) (h : Hw)
        → is_selected h ≡ false
        → Identifies (read_device_info_quad b stack h)
    unfolding read_device_info_quad request
    read_device_info_quad_lem stack h e =
        let command = write-HasGot (0x94 ∷ []) (start-HasGot h e) in
        let post = write-HasGot (0xFF ∷ []) (write-HasGot address (set_mode-HasGot quad command)) in
        read_lem quad stack _ (write-HasGot (0 ∷ 0 ∷ []) post)

    -- The answer of the tests, for the identifiers of the chip.
    memory_test_sequence_lem :
        (stack : DeviceInfo) (h : Hw)
        → is_selected h ≡ false
        → ((memory_test_sequence b stack h).0
            ≡ (is_correct_manufacturer info.manufacturer && is_correct_capacity info.device))
          × (is_selected (memory_test_sequence b stack h).1 ≡ false)
    unfolding memory_test_sequence
    memory_test_sequence_lem stack h e =
        let (same, free) = read_device_info_lem stack h e in
        let h₁ = (read_device_info b stack h).1 in
        let (same₂, free₂) = read_device_info_dual_lem stack h₁ free in
        let h₂ = (read_device_info_dual b stack h₁).1 in
        let (same₃, free₃) = read_device_info_quad_lem stack h₂ free₂ in
        elim (Bool-cases (is_correct_manufacturer info.manufacturer)) [
          | inr m ↦ rw (same, m) (refl, free)
          | inl m ↦ elim (Bool-cases (is_correct_capacity info.device)) [
            | inr c ↦ rw (same, m, c) (refl, free)
            | inl c ↦ rw (same, m, c, same₂, m, c, same₃, m, c) (refl, free₃)
          ]
        ]

    -- The chips of the family W25Q from 32 to 256 Mbit.
    abbrev pub IsSupported : Type 0
    IsSupported = (info.manufacturer ≡ 0xEF) × (0x15 ≤ info.device) × (info.device ≤ 0x18)

    supported_iff :
        ((is_correct_manufacturer info.manufacturer && is_correct_capacity info.device) ≡ true)
        ↔ IsSupported
    unfolding is_correct_manufacturer is_correct_capacity
    supported_iff = ground arith

    led_iff : (t inv : Bool) → ((if t then inv else not inv) ≡ inv) ↔ (t ≡ true)
    led_iff t inv = ground arith

    -- With a chip behind the interface that is not selected and meets the data sheet, whatever the
    -- stack holds, a pass of the loop of main leaves the LED off (at the level BOARD_LED_INV) if and
    -- only if the chip is a W25Q from 32 to 256 Mbit, and leaves the chip not selected.
    pub pass-IsSupported :
        (led_inv : Bool) (stack : DeviceInfo) (h : Hw)
        → is_selected h ≡ false
        → (((pass b led_inv stack h).0 ≡ led_inv) ↔ IsSupported)
          × (is_selected (pass b led_inv stack h).1 ≡ false)
    unfolding pass
    pass-IsSupported led_inv stack h e =
        let (t, free) = memory_test_sequence_lem stack h e in
        let off = led_iff (memory_test_sequence b stack h).0 led_inv in
        ((λ l. supported_iff.0 (sym t ∙ off.0 l), λ s. off.1 (t ∙ supported_iff.1 s)), free)
