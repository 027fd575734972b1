-- ===== src/Session/Pairing/Limiter.antt =====
-- remote_server.rs: an address that failed to pair five times within a minute is refused.
use ale_my_eyes_desktop.Prelude.{
  ℕ, ◌≡◌, Bool, false, not, ◌&&◌, List, [], ◌∷◌, ◌++◌, ltb, leb, if◌then◌else◌, length, is_empty,
  arith,
}
use ale_my_eyes_desktop.Prelude.Assoc.{
  Distinct, lookup-retain, retain-Distinct, insert-Distinct, remove-Distinct, lookup-insert,
  lookup-remove, length-insert, length-retain-le, length-remove-le, lookup-map_values,
  map_values-Distinct, length-map_values, only_if, apply_to,
}
use ale_my_eyes_desktop.Prelude.Assoc
use ale_my_eyes_desktop.Session.RateLimit.{IpAddr, ip_eq, ip_key, ip_eq_iff, purge_front}
use ale_my_eyes_desktop.Session.Pairing.{
  PairingLimiter, forget_old, or_default, allow, record_failure, record_success,
}

-- The failures that are counted against an address.
abbrev pub failures_of : PairingLimiter → IpAddr → List ℕ
failures_of l j = or_default (Assoc.lookup j l.failures)

lookup-forget_old :
    (now : ℕ) (j : IpAddr) (m : List (IpAddr × List ℕ))
    → Distinct m
    → or_default (Assoc.lookup j (forget_old now m))
      ≡ purge_front now 60000 (or_default (Assoc.lookup j m))
unfolding forget_old purge_front
lookup-forget_old now j m d = ground (
  arith,
  lookup-retain (λ f. not (is_empty f)) j (Assoc.map_values (purge_front now 60000) m)
      (map_values-Distinct (purge_front now 60000) m d),
  lookup-map_values (purge_front now 60000) j m,
)

-- The table has no room for a new address.
abbrev pub is_full : PairingLimiter → IpAddr → ℕ → Bool
is_full l address now =
    not (Assoc.contains_key address (forget_old now l.failures))
    && leb l.max_clients (length (forget_old now l.failures))

pub allow-answer :
    (l : PairingLimiter) (address : IpAddr) (now : ℕ)
    → Distinct l.failures
    → (allow l address now).1 ≡ (
        if is_full l address now
        then false
        else ltb (length (purge_front now 60000 (failures_of l address))) 5)
unfolding allow
allow-answer l address now d = ground (arith, lookup-forget_old now address l.failures d)

pub allow-failures_of :
    (l : PairingLimiter) (address j : IpAddr) (now : ℕ)
    → Distinct l.failures
    → failures_of (allow l address now).0 j ≡ purge_front now 60000 (failures_of l j)
unfolding allow
allow-failures_of l address j now d = ground (
  arith,
  lookup-forget_old now j l.failures d,
  ip_eq_iff address j,
  lookup-insert address j (or_default (Assoc.lookup address (forget_old now l.failures)))
      (forget_old now l.failures),
)

pub record_failure-failures_of :
    (l : PairingLimiter) (address j : IpAddr) (now : ℕ)
    → failures_of (record_failure l address now) j
      ≡ (if ip_eq address j then failures_of l j ++ now ∷ [] else failures_of l j)
unfolding record_failure
record_failure-failures_of l address j now = ground (
  arith,
  ip_eq_iff address j,
  lookup-insert address j (failures_of l address ++ now ∷ []) l.failures,
)

pub record_success-failures_of :
    (l : PairingLimiter) (address j : IpAddr)
    → Distinct l.failures
    → failures_of (record_success l address) j ≡ (if ip_eq address j then [] else failures_of l j)
unfolding record_success
record_success-failures_of l address j d = ground (arith, lookup-remove address j l.failures d)
