-- ===== src/Modeld/Health/Probing.antt =====
-- scheduler.rs, `refresh_health`: whose capabilities a probe's end records.
use ale_my_eyes_desktop.Prelude.{
  ℕ, suc, ◌≤◌, ◌≡◌, refl, ◌⊎◌, inl, inr, ap, ◌∙◌, subst, Bool, true, false, not, ◌||◌, Option, none,
  some, is_some, List, [], ◌∷◌, ◌==◌, arith, Bool-cases, Option-cases,
}
use ale_my_eyes_desktop.Prelude.Result.{Result, ok, err}
use ale_my_eyes_desktop.Modeld.Health.{
  ModelCapability, HealthCache, Probe, Found, Monitor, start, is_due, refresh_health,
  configure_models, note_devices, finish_probe, Event, maintenance, configure, probe_ends, step,
  run,
}

-- A probe that will write for the current generation was started with the current models.
abbrev pub IsCurrent : {Config : Type 0} → Option Config → ℕ → Option (Probe Config) → Type 0
IsCurrent models generation none = Unit
IsCurrent models generation (some p) =
    (p.generation ≤ generation) × (p.generation ≡ generation → p.runtime ≡ models)

bumped :
    {Config : Type 0} (models : Option Config) (config : Config) (generation : ℕ)
    (o : Option (Probe Config))
    → IsCurrent models generation o
    → IsCurrent (some config) (suc generation) o
bumped models config generation none inv = tt
bumped models config generation (some p) inv = (omega arith, λ same. ground arith)

note_devices-capabilities :
    {GpuDevice Code : Type 0} (c : HealthCache GpuDevice Code) (found : List ModelCapability)
    (devices : Result Code (List GpuDevice)) (now : ℕ)
    → (note_devices c found devices now).capabilities ≡ found
note_devices-capabilities c found (ok devices) now = refl
note_devices-capabilities c found (err code) now = refl

module _ {Config GpuDevice Code : Type 0} where
  abbrev pub Inv : Monitor Config GpuDevice Code → Type 0
  Inv s = IsCurrent s.models s.cache.generation s.probing

  refresh_health-Inv :
      (s : Monitor Config GpuDevice Code) (force : Bool) (now : ℕ)
      → Inv s
      → Inv (refresh_health s force now)
  unfolding refresh_health
  refresh_health-Inv s force now inv =
      elim (Bool-cases (not (force || is_due s.cache.attempt now) || is_some s.probing)) [
        | inl e ↦ rw e inv
        | inr e ↦ rw e (omega arith, λ same. refl)
      ]

  configure_models-Inv :
      (s : Monitor Config GpuDevice Code) (config : Config) (now : ℕ)
      → Inv s
      → Inv (configure_models s config now)
  unfolding configure_models
  configure_models-Inv s config now inv =
      refresh_health-Inv
        (record {
          models = some config;
          probing = s.probing;
          cache = record s.cache { attempt = none; generation = suc s.cache.generation };
        })
        true now (bumped s.models config s.cache.generation s.probing inv)

  module _ (probe : Option Config → ℕ → Found GpuDevice Code) where
    step-Inv : (s : Monitor Config GpuDevice Code) (e : Event Config) → Inv s → Inv (step probe s e)
    unfolding step finish_probe
    step-Inv s (maintenance now) inv = refresh_health-Inv s false now inv
    step-Inv s (configure config now) inv = configure_models-Inv s config now inv
    step-Inv s (probe_ends now) inv = elim (Option-cases s.probing) [
      | inl e ↦ rw e tt
      | inr (p, e) ↦ rw e tt
    ]

    run-Inv :
        (s : Monitor Config GpuDevice Code) (es : List (Event Config))
        → Inv s
        → Inv (run probe s es)
    unfolding run
    run-Inv s [] inv = inv
    run-Inv s (e ∷ es) inv = run-Inv (step probe s e) es (step-Inv s e inv)

    abbrev pub Outcome : Monitor Config GpuDevice Code → (now later : ℕ) → Type 0
    Outcome s now later =
        let ended = step probe s (probe_ends now) in
        (ended.probing ≡ none)
        × ((ended.cache.capabilities ≡ (probe s.models now).capabilities)
            ⊎ ((ended.cache.capabilities ≡ s.cache.capabilities)
                × ((step probe ended (maintenance later)).probing
                    ≡ some (record { runtime = s.models; generation = s.cache.generation }))))

    ends-Outcome :
        (s : Monitor Config GpuDevice Code) (p : Probe Config) (now later : ℕ)
        → s.probing ≡ some p
        → Inv s
        → Outcome s now later
    unfolding step finish_probe refresh_health
    ends-Outcome s p now later e inv =
        let current : IsCurrent s.models s.cache.generation (some p) =
          subst (λ o. IsCurrent s.models s.cache.generation o) e inv in
        let found = probe p.runtime now in
        elim (Bool-cases (s.cache.generation == p.generation)) [
          | inl same ↦
              let caught = note_devices-capabilities s.cache found.capabilities found.devices now in
              let runtime = current.1 (ground (arith, same)) in
              (
                rw e refl,
                inl (rw (e, same) (caught ∙ ap (λ m. (probe m now).capabilities) runtime)),
              )
          | inr old ↦ (rw e refl, inr (rw (e, old) refl, rw (e, old) refl))
        ]

    -- Whatever maintenance, configurations and ends of probes came before: when a probe ends, it
    -- either records what it finds under the models in force, or it leaves the cached capabilities
    -- as they were and the next maintenance starts a probe of the models in force, without waiting.
    pub probe_ends-Outcome :
        (es : List (Event Config)) (now later : ℕ)
        → is_some (run probe start es).probing ≡ true
        → Outcome (run probe start es) now later
    probe_ends-Outcome es now later probes = elim (Option-cases (run probe start es).probing) [
      | inl none_runs ↦ ground (arith, none_runs, probes)
      | inr (p, e) ↦ ends-Outcome (run probe start es) p now later e (run-Inv start es tt)
    ]
