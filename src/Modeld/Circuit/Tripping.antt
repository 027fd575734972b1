-- ===== src/Modeld/Circuit/Tripping.antt =====
-- scheduler.rs, `CircuitState`: when the primary endpoint's circuit opens and closes.
use ale_my_eyes_desktop.Prelude.{
  ℕ, suc, ◌+◌, ◌-◌, ◌*◌, ◌^◌, ◌≤◌, ◌<◌, ◌≡◌, refl, false, none, List, [], ◌∷◌, ◌++◌, ltb, min, max,
  arith, length,
}
use ale_my_eyes_desktop.Modeld.Circuit.{
  CircuitState, RemoteProviderSet, fresh_circuit, note_success, note_failure, primary_open,
  saturating_add,
}

module _ {Endpoint : Type 0} where
  -- The circuit after transient failures noted at these times, in this order.
  unfoldable pub fail_all : CircuitState → RemoteProviderSet Endpoint → List ℕ → CircuitState
  fail_all c p [] = c
  fail_all c p (t ∷ ts) = fail_all (note_failure c p t) p ts

  note_failure-revision :
      (c : CircuitState) (p : RemoteProviderSet Endpoint) (t : ℕ)
      → (note_failure c p t).revision ≡ c.revision
  unfolding note_failure
  note_failure-revision c p t = ground arith

  note_failure-failures :
      (c : CircuitState) (p : RemoteProviderSet Endpoint) (t : ℕ)
      → c.revision ≡ p.revision
      → (note_failure c p t).consecutive_failures ≡ saturating_add c.consecutive_failures 1
  unfolding note_failure
  note_failure-failures c p t same = ground arith

  fail_all-fields :
      (c : CircuitState) (p : RemoteProviderSet Endpoint) (ts : List ℕ)
      → c.revision ≡ p.revision
      → c.consecutive_failures < 2 ^ 32
      → ((fail_all c p ts).revision ≡ p.revision)
        × ((fail_all c p ts).consecutive_failures
            ≡ min (c.consecutive_failures + length ts) (2 ^ 32 - 1))
  unfolding fail_all
  fail_all-fields c p [] same small = (same, omega arith)
  fail_all-fields c p (t ∷ ts) same small = ground (
    arith,
    note_failure-revision c p t,
    note_failure-failures c p t same,
    fail_all-fields (note_failure c p t) p ts (ground (arith, note_failure-revision c p t))
        (ground (arith, note_failure-failures c p t same)),
  )

  fail_all-append :
      (c : CircuitState) (p : RemoteProviderSet Endpoint) (ts us : List ℕ)
      → fail_all c p (ts ++ us) ≡ fail_all (fail_all c p ts) p us
  unfolding fail_all
  fail_all-append c p [] us = refl
  fail_all-append c p (t ∷ ts) us = fail_all-append (note_failure c p t) p ts us

  -- With fewer failures than the threshold, the circuit stays as it was.
  fail_all-closed :
      (c : CircuitState) (p : RemoteProviderSet Endpoint) (ts : List ℕ)
      → c.revision ≡ p.revision
      → c.open_until ≡ none
      → c.consecutive_failures + length ts < max p.circuit_failure_threshold 1
      → (fail_all c p ts).open_until ≡ none
  unfolding fail_all note_failure
  fail_all-closed c p [] same closed few = closed
  fail_all-closed c p (t ∷ ts) same closed few =
      fail_all-closed (note_failure c p t) p ts (ground arith) (ground arith) (ground arith)

  -- Configured afresh, the circuit is closed at any time after fewer transient failures in a row
  -- than the threshold (at least one); a success then forgets those failures.
  pub fail_all-few :
      (p : RemoteProviderSet Endpoint) (ts : List ℕ) (now : ℕ)
      → length ts < max p.circuit_failure_threshold 1
      → (primary_open (fail_all (fresh_circuit p.revision) p ts) p now ≡ false)
        × (note_success (fail_all (fresh_circuit p.revision) p ts) p ≡ fresh_circuit p.revision)
  unfolding fail_all note_failure note_success
  fail_all-few p ts now few =
      let c = fresh_circuit p.revision in
      let fields = fail_all-fields c p ts refl (omega arith) in
      (ground (arith, fail_all-closed c p ts refl refl (omega arith)), ground (arith, fields))

  -- Configured afresh, the circuit is opened by the transient failure that reaches the threshold
  -- (at least one, and of 32 bits) and by each further one: it is open for the configured time (at
  -- least a second) from that failure on, and no longer.
  pub fail_all-opens :
      (p : RemoteProviderSet Endpoint) (ts : List ℕ) (t now : ℕ)
      → p.circuit_failure_threshold < 2 ^ 32
      → max p.circuit_failure_threshold 1 ≤ suc (length ts)
      → primary_open (fail_all (fresh_circuit p.revision) p (ts ++ t ∷ [])) p now
        ≡ ltb now (t + 1000 * max p.circuit_open_seconds 1)
  unfolding fail_all note_failure
  fail_all-opens p ts t now word many =
      let c = fresh_circuit p.revision in
      ground (arith, fail_all-append c p ts (t ∷ []), fail_all-fields c p ts refl (omega arith))
