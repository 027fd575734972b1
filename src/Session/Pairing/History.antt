-- ===== src/Session/Pairing/History.antt =====
-- remote_server.rs: the pairing limiter over the calls that the accept loop and the connections
-- make on it, against the failures of an address since it last paired.
use mathlib.Core.List.{append_assoc, append-nil}
use ale_my_eyes_desktop.Prelude.{
  ℕ, ◌≤◌, ◌≡◌, refl, ap, ◌∙◌, false, not, List, [], ◌∷◌, ◌++◌, ltb, if◌then◌else◌, length, is_empty,
  arith, All, Bool-cases, inl, inr,
}
use ale_my_eyes_desktop.Prelude.Assoc.{
  Distinct, retain-Distinct, insert-Distinct, remove-Distinct, length-insert, length-retain-le,
  length-remove-le, map_values-Distinct, length-map_values,
}
use ale_my_eyes_desktop.Prelude.Assoc
use ale_my_eyes_desktop.Session.RateLimit.{IpAddr, ip_eq, ip_key, purge_front}
use ale_my_eyes_desktop.Session.Pairing.{
  PairingLimiter, default, forget_old, or_default, allow, record_failure, record_success,
}
use ale_my_eyes_desktop.Session.Pairing.Limiter.{
  failures_of, is_full, allow-answer, allow-failures_of, record_failure-failures_of,
  record_success-failures_of,
}

pub data Call : Type 0 where
  allows fails : IpAddr → ℕ → Call
  succeeds : IpAddr → Call

unfoldable pub step : PairingLimiter → Call → PairingLimiter
step l (allows address now) = (allow l address now).0
step l (fails address now) = record_failure l address now
step l (succeeds address) = record_success l address

unfoldable pub run : PairingLimiter → List Call → PairingLimiter
run l [] = l
run l (c ∷ calls) = run (step l c) calls

-- The failures of an address since its last success.
unfoldable pub since_success : IpAddr → List ℕ → List Call → List ℕ
since_success j failed [] = failed
since_success j failed (allows address now ∷ calls) = since_success j failed calls
since_success j failed (fails address now ∷ calls) =
    since_success j (if ip_eq address j then failed ++ now ∷ [] else failed) calls
since_success j failed (succeeds address ∷ calls) =
    since_success j (if ip_eq address j then [] else failed) calls

-- No call is later than the given time.
abbrev pub IsBefore : ℕ → Call → Type 0
IsBefore now (allows address t) = t ≤ now
IsBefore now (fails address t) = t ≤ now
IsBefore now (succeeds address) = Unit

-- What an earlier purge dropped, a later one drops too.
purge_front-append :
    (before now : ℕ) (xs ys : List ℕ)
    → before ≤ now
    → purge_front now 60000 (purge_front before 60000 xs ++ ys) ≡ purge_front now 60000 (xs ++ ys)
unfolding purge_front
purge_front-append before now [] ys h = refl
purge_front-append before now (x ∷ xs) ys h = ground (arith, purge_front-append before now xs ys h)

step-Distinct : (l : PairingLimiter) (c : Call) → Distinct l.failures → Distinct (step l c).failures
unfolding step allow record_failure record_success forget_old
step-Distinct l (allows address now) d =
    let purged = Assoc.map_values (purge_front now 60000) l.failures in
    let kept =
      retain-Distinct (λ f. not (is_empty f)) purged
        (map_values-Distinct (purge_front now 60000) l.failures d) in
    ground (
      arith,
      kept,
      insert-Distinct address (or_default (Assoc.lookup address (forget_old now l.failures)))
          (forget_old now l.failures) kept,
    )
step-Distinct l (fails address now) d = insert-Distinct address _ l.failures d
step-Distinct l (succeeds address) d = remove-Distinct address l.failures d

-- Two records of failures that look alike at a time and later, whatever is added to them.
abbrev Alike : ℕ → List ℕ → List ℕ → Type 0
Alike now xs zs =
    (ys : List ℕ) → purge_front now 60000 (xs ++ ys) ≡ purge_front now 60000 (zs ++ ys)

Alike-allow :
    (l : PairingLimiter) (address j : IpAddr) (t now : ℕ) (failed : List ℕ)
    → Distinct l.failures
    → t ≤ now
    → Alike now (failures_of l j) failed
    → Alike now (failures_of (allow l address t).0 j) failed
Alike-allow l address j t now failed d b h ys =
    rw (allow-failures_of l address j t d) (purge_front-append t now (failures_of l j) ys b ∙ h ys)

Alike-fail :
    (l : PairingLimiter) (address j : IpAddr) (t now : ℕ) (failed : List ℕ)
    → Alike now (failures_of l j) failed
    → Alike now
        (failures_of (record_failure l address t) j)
        (if ip_eq address j then failed ++ t ∷ [] else failed)
Alike-fail l address j t now failed h ys = elim (Bool-cases (ip_eq address j)) [
  | inl e ↦
      rw (record_failure-failures_of l address j t, e)
        (rw (append_assoc (failures_of l j) (t ∷ []) ys, append_assoc failed (t ∷ []) ys)
          (h (t ∷ ys)))
  | inr e ↦ rw (record_failure-failures_of l address j t, e) (h ys)
]

Alike-success :
    (l : PairingLimiter) (address j : IpAddr) (now : ℕ) (failed : List ℕ)
    → Distinct l.failures
    → Alike now (failures_of l j) failed
    → Alike now (failures_of (record_success l address) j) (if ip_eq address j then [] else failed)
Alike-success l address j now failed d h ys = elim (Bool-cases (ip_eq address j)) [
  | inl e ↦ rw (record_success-failures_of l address j d, e)
  | inr e ↦ rw (record_success-failures_of l address j d, e) (h ys)
]

run-Alike :
    (l : PairingLimiter) (calls : List Call) (j : IpAddr) (now : ℕ) (failed : List ℕ)
    → Distinct l.failures
    → All (IsBefore now) calls
    → Alike now (failures_of l j) failed
    → Alike now (failures_of (run l calls) j) (since_success j failed calls)
unfolding run since_success step
run-Alike l [] j now failed d b h = h
run-Alike l (allows address t ∷ calls) j now failed d b h =
    run-Alike (allow l address t).0 calls j now failed (step-Distinct l (allows address t) d) b.1
      (Alike-allow l address j t now failed d b.0 h)
run-Alike l (fails address t ∷ calls) j now failed d b h =
    run-Alike (record_failure l address t) calls j now _ (step-Distinct l (fails address t) d) b.1
      (Alike-fail l address j t now failed h)
run-Alike l (succeeds address ∷ calls) j now failed d b h =
    run-Alike (record_success l address) calls j now _ (step-Distinct l (succeeds address) d) b.1
      (Alike-success l address j now failed d h)

run-Distinct :
    (l : PairingLimiter) (calls : List Call) → Distinct l.failures → Distinct (run l calls).failures
unfolding run
run-Distinct l [] d = d
run-Distinct l (c ∷ calls) d = run-Distinct (step l c) calls (step-Distinct l c d)

default-Distinct : Distinct default.failures
unfolding default
default-Distinct = tt

purge-since_success :
    (calls : List Call) (j : IpAddr) (now : ℕ)
    → All (IsBefore now) calls
    → purge_front now 60000 (failures_of (run default calls) j)
      ≡ purge_front now 60000 (since_success j [] calls)
unfolding default Assoc.lookup
purge-since_success calls j now b =
    rw (← append-nil (failures_of (run default calls) j), ← append-nil (since_success j [] calls))
      (run-Alike default calls j now [] default-Distinct b (λ ys. refl) [])

-- After any calls by any addresses, at times not after `now`, an address may pair exactly when the
-- table has room for it and, of its failures since it last paired, fewer than five are left when
-- the oldest are dropped until one is younger than a minute.
pub run-allow :
    (calls : List Call) (j : IpAddr) (now : ℕ)
    → All (IsBefore now) calls
    → (allow (run default calls) j now).1 ≡ (
        if is_full (run default calls) j now
        then false
        else ltb (length (purge_front now 60000 (since_success j [] calls))) 5)
run-allow calls j now b =
    allow-answer (run default calls) j now (run-Distinct default calls default-Distinct)
    ∙ ap (λ f. if is_full (run default calls) j now then false else ltb (length f) 5)
        (purge-since_success calls j now b)
