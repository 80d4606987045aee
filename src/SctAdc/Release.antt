-- ===== src/SctAdc/Release.antt =====
-- The destructor of sct_adc.c gives back what the constructor took.
use halm_examples.Base.{ℕ, ◌≡◌, refl, Bool, true, false, Option, none, some}
use halm_examples.Sct.{Defs, Library, busy}
use halm_examples.Sct.Laws.{Usage, IsLibrary, marked, marked-marked, marked_self, marked_stays}
use halm_examples.Sct.Steps.{running, failed, ◌>>◌, of_running}
use halm_examples.SctAdc.{
  Config, SctAdc, adc_channel, reserve, setup_timer, acquire_events, tmr_init,
}
use halm_examples.SctAdc.Runtime.{drop_output, drop_event, tmr_deinit, halt}
use halm_examples.SctAdc.Usage.{
  taken, IsFree, HoldsAll, acquire_events-HoldsEvents, tmr_init-HoldsAll,
}

module _ (l : Library) (k : Defs) where
  release_opt : Option ℕ → l.Base → l.Base
  release_opt none b = b
  release_opt (some i) b = l.release_output i b

  -- The calls that the destructor makes on the base object, in order.
  released_base : SctAdc l k → l.Base
  released_base s = l.deinit (
      l.release_event s.conversion (
        l.release_event s.memory
          (l.release_event s.reset (release_opt s.adc_output (release_opt s.dma_output s.base)))))

  tmr_deinit-base_cases :
      (s : SctAdc l k) (o o' : Option ℕ)
      → s.dma_output ≡ o
      → s.adc_output ≡ o'
      → (tmr_deinit l k s).base ≡ released_base s
  unfolding tmr_deinit drop_output drop_event halt released_base release_opt
  tmr_deinit-base_cases s none none e e' = rw (e, e')
  tmr_deinit-base_cases s none (some i) e e' = rw (e, e')
  tmr_deinit-base_cases s (some i) none e e' = rw (e, e')
  tmr_deinit-base_cases s (some i) (some j) e e' = rw (e, e')

  tmr_deinit-base : (s : SctAdc l k) → (tmr_deinit l k s).base ≡ released_base s
  tmr_deinit-base s = tmr_deinit-base_cases s s.dma_output s.adc_output refl refl

  -- The table without an output, if there is one.
  abbrev given : Option ℕ → (ℕ → Bool) → ℕ → Bool
  given none f = f
  given (some i) f = marked f i false

  given-taken : (o : Option ℕ) (f : ℕ → Bool) → IsFree o f → given o (taken o f) ≡ f
  given-taken none f h = refl
  given-taken (some i) f h = marked-marked f i h

  module _ (d : IsLibrary l) where
    release_opt-usage :
        (o : Option ℕ) (b : l.Base)
        → d.usage (release_opt o b) ≡ record (d.usage b) { output = given o (d.usage b).output }
    unfolding release_opt
    release_opt-usage none b = refl
    release_opt-usage (some i) b = d.output_released b i

    HoldsAll-released :
        (u : Usage) (s : SctAdc l k) → HoldsAll l k d u s → d.usage (released_base s) ≡ u
    unfolding released_base
    HoldsAll-released u s h =
        let own = h.own_events in
        rw
          (d.deinit_keeps, d.released, d.released, d.released, release_opt-usage, release_opt-usage)
          (rw (
            own.events,
            own.inputs,
            h.outputs,
            given-taken s.dma_output (taken s.adc_output u.output) h.dma_free,
            given-taken s.adc_output u.output h.adc_free,
            marked-marked (marked (marked u.event s.conversion true) s.memory true) s.reset
                own.reset_free,
            marked-marked (marked u.event s.conversion true) s.memory own.memory_free,
            marked-marked u.event s.conversion own.conversion_free,
          ))

    -- Where the constructor has succeeded, the destructor gives back every event and output that
    -- it took: the tables of the timer are as they were before.
    pub tmr_deinit-tmr_init :
        (config : Config) (s s' : SctAdc l k)
        → tmr_init l k config s ≡ running s'
        → d.usage (tmr_deinit l k s').base ≡ d.usage s.base
    tmr_deinit-tmr_init config s s' e =
        rw (tmr_deinit-base s')
          (HoldsAll-released (d.usage s.base) s' (of_running (tmr_init-HoldsAll l k d config s) e))

    -- Where the output for the ADC is taken by another timer, the constructor fails, and the three
    -- events that it allocated before stay in use.
    pub tmr_init-leak :
        (config : Config) (s s₁ : SctAdc l k) (i : ℕ)
        → acquire_events l k config s ≡ running s₁
        → adc_channel config.adc ≡ some i
        → l.reserve_output i s₁.base ≡ none
        → (s' : SctAdc l k) × (tmr_init l k config s ≡ failed busy s')
          × ((d.usage s.base).event s'.conversion ≡ false)
          × ((d.usage s'.base).event s'.conversion ≡ true)
          × ((d.usage s'.base).event s'.memory ≡ true)
          × ((d.usage s'.base).event s'.reset ≡ true)
    unfolding tmr_init setup_timer reserve
    tmr_init-leak config s s₁ i e adc denied =
        let (h, _) = of_running (acquire_events-HoldsEvents l k d config s) e in
        (
          setup_timer l k config s₁,
          rw (e, ◌>>◌, adc, denied),
          h.conversion_free,
          rw h.events (marked_stays _ _ _ (marked_stays _ _ _ (marked_self _ _ _))),
          rw h.events (marked_stays _ _ _ (marked_self _ _ _)),
          rw h.events (marked_self _ _ _),
        )
