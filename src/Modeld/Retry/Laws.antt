-- ===== src/Modeld/Retry/Laws.antt =====
-- model_api.rs: how often `retry` calls, when it calls again, and what it returns.
use ale_my_eyes_desktop.Prelude.{
  ℕ, zero, suc, ◌≤◌, ◌<◌, ◌≡◌, ◌⊎◌, inl, inr, false, ap, none, arith, min,
}
use ale_my_eyes_desktop.Prelude.Result.{Result, ok, err}
use ale_my_eyes_desktop.Modeld.Retry.{
  AleError, model_call, other_error, Attempt, is_transient, or_timeout, retry_from, retry,
  pause_after,
}

module _ {A : Type 0} where
  retry_from-calls :
      (deadline left attempt : ℕ) (calls : ℕ → Attempt A)
      → (retry_from deadline left attempt calls).1 ≤ suc left
  unfolding retry_from
  retry_from-calls deadline zero attempt calls = ground arith
  retry_from-calls deadline (suc left) attempt calls =
      ground (arith, retry_from-calls deadline left (suc attempt) calls)

  -- A result after which `retry` does not call again.
  abbrev pub IsFinal : Result AleError A → Type 0
  IsFinal r = ((a : A) × (r ≡ ok a)) ⊎ ((e : AleError) × (r ≡ err e) × (is_transient e ≡ false))

  pause_after-final : (r : Result AleError A) (clock : ℕ) → IsFinal r → pause_after r clock ≡ none
  pause_after-final r clock (inl (a, e)) = ap (λ q. pause_after q clock) e
  pause_after-final r clock (inr (model_call e, is_err, lasting)) = ground arith
  pause_after-final r clock (inr (other_error, is_err, lasting)) =
      ap (λ q. pause_after q clock) is_err

  retry_from-final :
      (deadline left attempt : ℕ) (calls : ℕ → Attempt A)
      → IsFinal (or_timeout (calls attempt).returned)
      → (calls attempt).started < deadline
      → retry_from deadline left attempt calls ≡ (or_timeout (calls attempt).returned, 1)
  unfolding retry_from
  retry_from-final deadline zero attempt calls final early = ground arith
  retry_from-final deadline (suc left) attempt calls final early = ground (
    arith,
    pause_after-final (or_timeout (calls attempt).returned) (calls attempt).clock_ms final,
  )

  -- `retry` makes at most two calls, and at most one more than it is allowed retries.
  pub retry-calls :
      (deadline retries : ℕ) (calls : ℕ → Attempt A)
      → ((retry deadline retries calls).1 ≤ 2) × ((retry deadline retries calls).1 ≤ suc retries)
  unfolding retry
  retry-calls deadline retries calls =
      let few = retry_from-calls deadline (min retries 1) 0 calls in (omega arith, omega arith)

  -- If the first call starts before the deadline and succeeds or fails for good, `retry` makes no
  -- other call and returns that result.
  pub retry-final :
      (deadline retries : ℕ) (calls : ℕ → Attempt A)
      → IsFinal (or_timeout (calls 0).returned)
      → (calls 0).started < deadline
      → retry deadline retries calls ≡ (or_timeout (calls 0).returned, 1)
  unfolding retry
  retry-final deadline retries calls = retry_from-final deadline (min retries 1) 0 calls
