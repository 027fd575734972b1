-- ===== src/Modeld/Retry.antt =====
-- ale-core/src/model_api.rs: errors of a model call, and `retry`.
-- The call itself is a parameter: for each attempt, when it starts, what it returns (nothing if the
-- deadline cuts it off), when it has ended, and the millisecond of the clock that jitters the pause.
pub mod Laws
use ale_my_eyes_desktop.Prelude.{
  ℕ, zero, suc, ◌+◌, ◌%◌, ◌≤◌, Bool, true, false, ◌&&◌, Option, none, some, List, [], ◌∷◌, leb,
  if◌then◌else◌, min,
}
use ale_my_eyes_desktop.Prelude.Result.{Result, ok, err}

pub data ErrorKind : Type 0 where
  authentication permission not_found unsupported rate_limited network : ErrorKind
  service timeout invalid_request invalid_output refused cancelled : ErrorKind

-- The message is left out.
pub record ModelCallError : Type 0 where
  pub kind : ErrorKind
  pub retry_after_ms : Option ℕ

-- `AleError`, as far as it matters here.
pub data AleError : Type 0 where
  model_call : ModelCallError → AleError
  other_error : AleError

unfoldable pub transient_kind : ErrorKind → Bool
transient_kind network = true
transient_kind rate_limited = true
transient_kind service = true
transient_kind timeout = true
transient_kind authentication = false
transient_kind permission = false
transient_kind not_found = false
transient_kind unsupported = false
transient_kind invalid_request = false
transient_kind invalid_output = false
transient_kind refused = false
transient_kind cancelled = false

-- `is_transient_remote_error` of ale-modeld/src/scheduler.rs
abbrev pub is_transient : AleError → Bool
is_transient (model_call e) = transient_kind e.kind
is_transient other_error = false

abbrev pub budget_exhausted : AleError
budget_exhausted = model_call (record { kind = timeout; retry_after_ms = none })

pub record Attempt (A : Type 0) : Type 0 where
  pub started : ℕ
  pub returned : Option (Result AleError A)
  pub ended : ℕ
  pub clock_ms : ℕ

module _ {A : Type 0} where
  abbrev pub or_timeout : Option (Result AleError A) → Result AleError A
  or_timeout none = err budget_exhausted
  or_timeout (some r) = r

  -- The pause before the next attempt, if the result allows one.
  abbrev pub pause_after : Result AleError A → ℕ → Option ℕ
  pause_after (ok a) clock = none
  pause_after (err other_error) clock = none
  pause_after (err (model_call e)) clock =
      if transient_kind e.kind
      then some (elim e.retry_after_ms [ none ↦ 200 + clock % 201 | some ms ↦ ms ])
      else none

  -- The rounds of the `for` from an attempt on, with as many left to follow; the result and the
  -- number of calls made.
  unfoldable pub retry_from : (deadline left attempt : ℕ) → (ℕ → Attempt A) → Result AleError A × ℕ
  retry_from deadline zero attempt calls =
      let a = calls attempt in
      if leb deadline a.started then (err budget_exhausted, 0) else (or_timeout a.returned, 1)
  retry_from deadline (suc left) attempt calls =
      let a = calls attempt in
      let result = or_timeout a.returned in
      let (later, made) = retry_from deadline left (suc attempt) calls in
      if leb deadline a.started
      then (err budget_exhausted, 0)
      else elim (pause_after result a.clock_ms) [
        | none ↦ (result, 1)
        | some delay ↦ if leb deadline (a.ended + delay) then (result, 1) else (later, suc made)
      ]

  unfoldable pub retry : (deadline retries : ℕ) → (ℕ → Attempt A) → Result AleError A × ℕ
  retry deadline retries calls = retry_from deadline (min retries 1) 0 calls
