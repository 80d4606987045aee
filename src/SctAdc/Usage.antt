-- ===== src/SctAdc/Usage.antt =====
-- What the constructor of sct_adc.c takes from the timer's tables, and what the destructor gives
-- back.
use halm_examples.Base.{
  ℕ, ◌≡◌, ◌∙◌, refl, ap, inl, inr, Bool, true, false, Option, none, some, Option-cases,
}
use halm_examples.Sct.{Regs, Defs, Library, Result, ok, busy, fault}
use halm_examples.Sct.Laws.{Usage, IsLibrary, marked}
use halm_examples.Sct.Steps.{Ends, runs, stops, ends}
use halm_examples.SctAdc.{
  Config, SctAdc, adc_channel, dma_channel, init_base, allocate, reserve, setup_timer, setup_memory,
  setup_reset, acquire_events, configure_output, tmr_init,
}

-- The table with an output taken, if there is one, and whether it was free.
abbrev pub taken : Option ℕ → (ℕ → Bool) → ℕ → Bool
taken none f = f
taken (some i) f = marked f i true

abbrev pub IsFree : Option ℕ → (ℕ → Bool) → Type 0
IsFree none f = Unit
IsFree (some i) f = f i ≡ false

module _ (l : Library) (k : Defs) (d : IsLibrary l) where
  -- Compared with the tables `u`, a timer holds its three events, which were free.
  pub record HoldsEvents (u : Usage) (s : SctAdc l k) : Type 0 where
    pub conversion_free : u.event s.conversion ≡ false
    pub memory_free : marked u.event s.conversion true s.memory ≡ false
    pub reset_free : marked (marked u.event s.conversion true) s.memory true s.reset ≡ false
    pub events :
        (d.usage s.base).event
        ≡ marked (marked (marked u.event s.conversion true) s.memory true) s.reset true
    pub inputs : (d.usage s.base).input ≡ u.input

  abbrev pub Any : Result → SctAdc l k → Type 0
  Any r s = Unit

  -- It holds its outputs too.
  pub record HoldsAll (u : Usage) (s : SctAdc l k) : Type 0 where
    pub own_events : HoldsEvents u s
    pub adc_free : IsFree s.adc_output u.output
    pub dma_free : IsFree s.dma_output (taken s.adc_output u.output)
    pub outputs : (d.usage s.base).output ≡ taken s.dma_output (taken s.adc_output u.output)

  module _ (config : Config) where
    record One (u : Usage) (s : SctAdc l k) : Type 0 where
      free : u.event s.conversion ≡ false
      now : d.usage s.base ≡ record u { event = marked u.event s.conversion true }

    record Two (u : Usage) (s : SctAdc l k) : Type 0 where
      first_free : u.event s.conversion ≡ false
      free : marked u.event s.conversion true s.memory ≡ false
      now :
          d.usage s.base
          ≡ record u { event = marked (marked u.event s.conversion true) s.memory true }

    init_base_cases :
        (s : SctAdc l k) (r : Result)
        → (l.init config.channel config.part s.base).0 ≡ r
        → Ends (λ s'. d.usage s'.base ≡ d.usage s.base) Any (init_base l k config s)
    unfolding init_base
    init_base_cases s ok e =
        let b = (l.init config.channel config.part s.base).1 in
        rw (e, init_base) (runs (d.init_keeps config.channel config.part s.base b (λ i. (e i, b))))
    init_base_cases s busy e = rw (e, init_base) (stops tt)
    init_base_cases s (fault n) e = rw (e, init_base) (stops tt)

    init_base_lem :
        (s : SctAdc l k)
        → Ends (λ s'. d.usage s'.base ≡ d.usage s.base) Any (init_base l k config s)
    init_base_lem s = init_base_cases s (l.init config.channel config.part s.base).0 refl

    first_lem :
        (u : Usage) (s : SctAdc l k)
        → d.usage s.base ≡ u
        → Ends (One u) Any (allocate l k (λ e s. record s { conversion = e }) s)
    unfolding allocate
    first_lem u s e = elim (Option-cases (l.allocate_event s.base)) [
      | inl denied ↦ rw (denied, allocate) (stops tt)
      | inr ((a, b), got) ↦
          let (_, free, now) = d.allocated s.base b a got in
          rw (got, allocate) (runs (record { free = rw e at free; now = rw e at now }))
    ]

    second_lem :
        (u : Usage) (s : SctAdc l k)
        → One u s
        → Ends (Two u) Any (allocate l k (λ e s. record s { memory = e }) s)
    unfolding allocate
    second_lem u s one = elim (Option-cases (l.allocate_event s.base)) [
      | inl denied ↦ rw (denied, allocate) (stops tt)
      | inr ((a, b), got) ↦
          let (_, free, now) = d.allocated s.base b a got in
          let e = one.now in
          rw (got, allocate)
            (runs (record { first_free = one.free; free = rw e at free; now = rw e at now }))
    ]

    third_lem :
        (u : Usage) (s : SctAdc l k)
        → Two u s
        → Ends
            (λ s'. HoldsEvents u s' × ((d.usage s'.base).output ≡ u.output))
            Any
            (allocate l k (λ e s. record s { reset = e }) s)
    unfolding allocate
    third_lem u s two = elim (Option-cases (l.allocate_event s.base)) [
      | inl denied ↦ rw (denied, allocate) (stops tt)
      | inr ((a, b), got) ↦
          let (_, free, now) = d.allocated s.base b a got in
          let e = two.now in
          let now' = rw e at now in
          rw (got, allocate)
            (runs (
              record {
                conversion_free = two.first_free;
                memory_free = two.free;
                reset_free = rw e at free;
                events = ap (λ (w : Usage). w.event) now';
                inputs = ap (λ (w : Usage). w.input) now';
              },
              ap (λ (w : Usage). w.output) now',
            ))
    ]

    -- Once the events are there, three of them are held that were free, and nothing else.
    pub acquire_events-HoldsEvents :
        (s : SctAdc l k)
        → Ends
            (λ s'.
              HoldsEvents (d.usage s.base) s'
              × ((d.usage s'.base).output ≡ (d.usage s.base).output))
            Any
            (acquire_events l k config s)
    unfolding acquire_events
    acquire_events-HoldsEvents s =
        let u = d.usage s.base in
        ends (init_base_lem s)
          λ s₁ h₁. ends (first_lem u s₁ h₁) λ s₂ h₂. ends (second_lem u s₂ h₂) (third_lem u)

    kept :
        {u : Usage} (s s' : SctAdc l k)
        → HoldsEvents u s
        → s'.base ≡ s.base
        → s'.conversion ≡ s.conversion
        → s'.memory ≡ s.memory
        → s'.reset ≡ s.reset
        → HoldsEvents u s'
    kept s s' h b c m r = record {
      conversion_free = rw c h.conversion_free;
      memory_free = rw (c, m) h.memory_free;
      reset_free = rw (c, m, r) h.reset_free;
      events = rw (b, c, m, r) h.events;
      inputs = rw b h.inputs;
    }

    reserve_lem :
        (u : Usage) (o : Option ℕ) (f : ℕ → Regs → Regs) (s : SctAdc l k) (t : ℕ → Bool)
        → HoldsEvents u s
        → (d.usage s.base).output ≡ t
        → Ends
            (λ s'.
              HoldsEvents u s'
              × ((d.usage s'.base).output ≡ taken o t)
              × IsFree o t
              × (s'.adc_output ≡ s.adc_output)
              × (s'.dma_output ≡ s.dma_output))
            Any
            (reserve l k o f s)
    unfolding reserve
    reserve_lem u none f s t h e = runs (h, e, tt, refl, refl)
    reserve_lem u (some i) f s t h e = elim (Option-cases (l.reserve_output i s.base)) [
      | inl denied ↦ rw (denied, reserve) (stops tt)
      | inr (b, got) ↦
          let (free, now) = d.output_reserved s.base b i got in
          rw (got, reserve)
            (runs (
              record {
                conversion_free = h.conversion_free;
                memory_free = h.memory_free;
                reset_free = h.reset_free;
                events = ap (λ (w : Usage). w.event) now ∙ h.events;
                inputs = ap (λ (w : Usage). w.input) now ∙ h.inputs;
              },
              ap (λ (w : Usage). w.output) now ∙ ap (λ g. marked g i true) e,
              rw e at free,
              refl,
              refl,
            ))
    ]

    -- A constructor that succeeds holds three events and the outputs of its configuration, all of
    -- which were free; no other entry of the tables has changed.
    pub tmr_init-HoldsAll :
        (s : SctAdc l k) → Ends (HoldsAll (d.usage s.base)) Any (tmr_init l k config s)
    unfolding tmr_init setup_timer setup_memory setup_reset
    tmr_init-HoldsAll s =
        let u = d.usage s.base in
        ends (acquire_events-HoldsEvents s) λ s₁ (h₁, e₁).
          ends
            (reserve_lem u (adc_channel config.adc) (configure_output l k s₁.conversion s₁.memory)
              (setup_timer l k config s₁) u.output
              (kept s₁ (setup_timer l k config s₁) h₁ refl refl refl refl) e₁)
            λ s₂ (h₂, e₂, free₂, same₂, _).
              ends
                (reserve_lem u (dma_channel config.dma) (configure_output l k s₂.memory s₂.reset)
                  (setup_memory l k config s₂) (taken (adc_channel config.adc) u.output)
                  (kept s₂ (setup_memory l k config s₂) h₂ refl refl refl refl) e₂)
                λ s₃ (h₃, e₃, free₃, same₃, dma₃). runs (record {
                  own_events = kept s₃ (setup_reset l k config s₃) h₃ refl refl refl refl;
                  adc_free = rw (same₃, same₂) free₂;
                  dma_free = rw (same₃, same₂, dma₃) free₃;
                  outputs = rw (same₃, same₂, dma₃) e₃;
                })
