-- ===== src/Session/RateLimit.antt =====
-- remote_server.rs: the sliding windows that limit a phone's requests, one for each address.
pub mod Window
pub mod Burst
pub mod Clients
use ale_my_eyes_desktop.Prelude.{
  ℕ, ◌-◌, ◌≤◌, ◌≡◌, Bool, true, false, not, ◌&&◌, Option, none, some, List, [], ◌∷◌, ◌++◌, ltb, leb,
  ◌==◌, ==_iff, if◌then◌else◌, length, is_empty, arith, ◌↔◌,
}
use ale_my_eyes_desktop.Prelude.Assoc.{Key}
use ale_my_eyes_desktop.Prelude.Assoc

-- `std::net::IpAddr`, by the numbers of the two address families.
pub data IpAddr : Type 0 where
  v4 v6 : ℕ → IpAddr

abbrev pub ip_eq : IpAddr → IpAddr → Bool
ip_eq (v4 a) (v4 b) = a == b
ip_eq (v4 a) (v6 b) = false
ip_eq (v6 a) (v4 b) = false
ip_eq (v6 a) (v6 b) = a == b

pub ip_eq_iff : (a b : IpAddr) → (ip_eq a b ≡ true) ↔ (a ≡ b)
ip_eq_iff (v4 a) (v4 b) = ground arith
ip_eq_iff (v4 a) (v6 b) = ground arith
ip_eq_iff (v6 a) (v4 b) = ground arith
ip_eq_iff (v6 a) (v6 b) = ground arith

instance abbrev pub ip_key : Key IpAddr
ip_key = record { same = ip_eq; same_iff = ip_eq_iff }

pub record RequestRate : Type 0 where
  pub attempts : List ℕ
  pub max_attempts : ℕ
  pub window : ℕ

unfoldable pub new : (max_attempts window : ℕ) → RequestRate
new max_attempts window = record { attempts = []; max_attempts = max_attempts; window = window }

-- The loop of `purge`: `duration_since` stops at zero.
unfoldable pub purge_front : (now window : ℕ) → List ℕ → List ℕ
purge_front now window [] = []
purge_front now window (a ∷ rest) =
    if leb window (now - a) then purge_front now window rest else a ∷ rest

unfoldable pub purge : RequestRate → ℕ → RequestRate
purge r now = record r { attempts = purge_front now r.window r.attempts }

unfoldable pub allow : RequestRate → ℕ → RequestRate × Bool
allow r now =
    let s = purge r now in
    if leb s.max_attempts (length s.attempts)
    then (s, false)
    else (record s { attempts = s.attempts ++ now ∷ [] }, true)

pub record ClientRequestLimiter : Type 0 where
  pub clients : List (IpAddr × RequestRate)
  pub max_attempts : ℕ
  pub window : ℕ
  pub max_clients : ℕ

unfoldable pub new_limiter : (max_attempts window max_clients : ℕ) → ClientRequestLimiter
new_limiter max_attempts window max_clients = record {
  clients = [];
  max_attempts = max_attempts;
  window = window;
  max_clients = max_clients;
}

-- The first two statements of `ClientRequestLimiter::allow`.
unfoldable pub drop_idle : ℕ → List (IpAddr × RequestRate) → List (IpAddr × RequestRate)
drop_idle now clients =
    Assoc.retain (λ r. not (is_empty r.attempts)) (Assoc.map_values (λ r. purge r now) clients)

-- `entry(address).or_insert_with(…)`
abbrev pub or_new : (max_attempts window : ℕ) → Option RequestRate → RequestRate
or_new max_attempts window none = new max_attempts window
or_new max_attempts window (some r) = r

unfoldable pub allow_client : ClientRequestLimiter → IpAddr → ℕ → ClientRequestLimiter × Bool
allow_client l address now =
    let clients = drop_idle now l.clients in
    let (rate, allowed) =
      allow (or_new l.max_attempts l.window (Assoc.lookup address clients)) now in
    if not (Assoc.contains_key address clients) && leb l.max_clients (length clients)
    then (record l { clients = clients }, false)
    else (record l { clients = Assoc.insert address rate clients }, allowed)
