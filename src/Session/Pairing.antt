-- ===== src/Session/Pairing.antt =====
-- remote_server.rs: `PairingLimiter`, which stops an address that fails to pair.
pub mod Limiter
pub mod History
use ale_my_eyes_desktop.Prelude.{
  ℕ, ◌+◌, ◌-◌, ◌≤◌, ◌≡◌, Bool, true, false, not, ◌&&◌, Option, none, some, List, [], ◌∷◌, ◌++◌, ltb,
  leb, ◌==◌, if◌then◌else◌, length, is_empty,
}
use ale_my_eyes_desktop.Prelude.Text.{Text}
use ale_my_eyes_desktop.Prelude.Result.{Result, ok, err}
use ale_my_eyes_desktop.Prelude.Assoc
use ale_my_eyes_desktop.Session.RateLimit.{IpAddr, ip_key, purge_front}

abbrev pub max_pairing_failures_per_minute : ℕ
max_pairing_failures_per_minute = 5

abbrev pub max_tracked_pairing_clients : ℕ
max_tracked_pairing_clients = 256

abbrev pub failure_window : ℕ
failure_window = 60000

pub record PairingLimiter : Type 0 where
  pub failures : List (IpAddr × List ℕ)
  pub max_clients : ℕ

unfoldable pub default : PairingLimiter
default = record { failures = []; max_clients = max_tracked_pairing_clients }

-- The loop over the entries and the `retain` after it. The inner loop is that of
-- `RequestRate::purge`, written out once more in the source.
unfoldable pub forget_old : ℕ → List (IpAddr × List ℕ) → List (IpAddr × List ℕ)
forget_old now failures =
    Assoc.retain (λ f. not (is_empty f))
      (Assoc.map_values (purge_front now failure_window) failures)

-- `entry(address).or_default()`
abbrev pub or_default : Option (List ℕ) → List ℕ
or_default none = []
or_default (some f) = f

unfoldable pub allow : PairingLimiter → IpAddr → ℕ → PairingLimiter × Bool
allow l address now =
    let failures = forget_old now l.failures in
    let own = or_default (Assoc.lookup address failures) in
    if not (Assoc.contains_key address failures) && leb l.max_clients (length failures)
    then (record l { failures = failures }, false)
    else (
      record l { failures = Assoc.insert address own failures },
      ltb (length own) max_pairing_failures_per_minute,
    )

unfoldable pub record_failure : PairingLimiter → IpAddr → ℕ → PairingLimiter
record_failure l address now =
    let own = or_default (Assoc.lookup address l.failures) in
    record l { failures = Assoc.insert address (own ++ now ∷ []) l.failures }

unfoldable pub record_success : PairingLimiter → IpAddr → PairingLimiter
record_success l address = record l { failures = Assoc.remove address l.failures }
