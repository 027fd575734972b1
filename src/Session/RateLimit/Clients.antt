-- ===== src/Session/RateLimit/Clients.antt =====
-- remote_server.rs: `ClientRequestLimiter` gives each address a window of its own, in a table of
-- bounded size.
use ale_my_eyes_desktop.Prelude.{
  ℕ, ◌≤◌, ◌≡◌, refl, ap, sym, ◌∙◌, Bool, false, not, ◌&&◌, List, [], ◌∷◌, leb, if◌then◌else◌,
  length, is_empty, arith,
}
use ale_my_eyes_desktop.Prelude.Assoc.{
  Distinct, lookup-retain, retain-Distinct, insert-Distinct, lookup-insert, length-insert,
  length-retain-le, lookup-map_values, map_values-Distinct, length-map_values, only_if, apply_to,
}
use ale_my_eyes_desktop.Prelude.Assoc
use ale_my_eyes_desktop.Session.RateLimit.{
  IpAddr, ip_eq, ip_key, ip_eq_iff, RequestRate, new, purge_front, purge, allow,
  ClientRequestLimiter, new_limiter, drop_idle, or_new, allow_client,
}

-- The window of an address, new if the table has none.
abbrev pub rate_of : ClientRequestLimiter → IpAddr → RequestRate
rate_of l j = or_new l.max_attempts l.window (Assoc.lookup j l.clients)

pub record Inv (l : ClientRequestLimiter) : Type 0 where
  pub distinct : Distinct l.clients
  pub bounded : length l.clients ≤ l.max_clients
  pub uniform :
      (j : IpAddr)
      → ((rate_of l j).max_attempts ≡ l.max_attempts) × ((rate_of l j).window ≡ l.window)

purge_front-later :
    (before now window : ℕ) (xs : List ℕ)
    → before ≤ now
    → purge_front now window (purge_front before window xs) ≡ purge_front now window xs
unfolding purge_front
purge_front-later before now window [] h = refl
purge_front-later before now window (x ∷ xs) h =
    ground (arith, purge_front-later before now window xs h)

drop_idle-Distinct :
    (now : ℕ) (m : List (IpAddr × RequestRate)) → Distinct m → Distinct (drop_idle now m)
unfolding drop_idle
drop_idle-Distinct now m d = retain-Distinct _ _ (map_values-Distinct (λ r. purge r now) m d)

length-drop_idle-le :
    (now : ℕ) (m : List (IpAddr × RequestRate)) → length (drop_idle now m) ≤ length m
unfolding drop_idle
length-drop_idle-le now m = omega (
  arith,
  length-retain-le (λ r. not (is_empty r.attempts)) (Assoc.map_values (λ r. purge r now) m),
  length-map_values (λ r. purge r now) m,
)

lookup-drop_idle :
    (now : ℕ) (j : IpAddr) (m : List (IpAddr × RequestRate))
    → Distinct m
    → Assoc.lookup j (drop_idle now m)
      ≡ only_if (λ r. not (is_empty r.attempts)) (apply_to (λ r. purge r now) (Assoc.lookup j m))
unfolding drop_idle
lookup-drop_idle now j m d =
    lookup-retain (λ r. not (is_empty r.attempts)) j (Assoc.map_values (λ r. purge r now) m)
      (map_values-Distinct (λ r. purge r now) m d)
    ∙ ap (only_if (λ r. not (is_empty r.attempts))) (lookup-map_values (λ r. purge r now) j m)

-- The window of an address after the idle entries were dropped: the old one, purged.
kept_rate :
    (l : ClientRequestLimiter) (j : IpAddr) (now : ℕ)
    → Inv l
    → or_new l.max_attempts l.window (Assoc.lookup j (drop_idle now l.clients))
      ≡ purge (rate_of l j) now
unfolding purge purge_front new
kept_rate l j now v = ground (arith, lookup-drop_idle now j l.clients v.distinct, v.uniform j)

purge-later :
    (r : RequestRate) (before now : ℕ) → before ≤ now → purge (purge r before) now ≡ purge r now
unfolding purge
purge-later r before now h =
    ap (λ a. record r { attempts = a }) (purge_front-later before now r.window r.attempts h)

allow-purge :
    (r : RequestRate) (before now : ℕ) → before ≤ now → allow (purge r before) now ≡ allow r now
unfolding allow
allow-purge r before now h = rw (purge-later r before now h)

-- The table has no room for a new address.
abbrev pub is_full : ClientRequestLimiter → IpAddr → ℕ → Bool
is_full l address now =
    not (Assoc.contains_key address (drop_idle now l.clients))
    && leb l.max_clients (length (drop_idle now l.clients))

allow_keeps :
    (r : RequestRate) (now : ℕ)
    → ((allow r now).0.max_attempts ≡ r.max_attempts) × ((allow r now).0.window ≡ r.window)
unfolding allow purge
allow_keeps r now = ground arith

allow_client-answer :
    (l : ClientRequestLimiter) (address : IpAddr) (now : ℕ)
    → Inv l
    → (allow_client l address now).1
      ≡ (if is_full l address now then false else (allow (rate_of l address) now).1)
unfolding allow_client
allow_client-answer l address now v =
    ground (arith, kept_rate l address now v, allow-purge (rate_of l address) now now)

-- The limiter after a call: the entry of the address is written unless the table is full.
allow_client-after :
    (l : ClientRequestLimiter) (address : IpAddr) (now : ℕ)
    → Inv l
    → (allow_client l address now).0 ≡ record l {
      clients =
          if is_full l address now
          then drop_idle now l.clients
          else Assoc.insert address (allow (rate_of l address) now).0 (drop_idle now l.clients);
    }
unfolding allow_client
allow_client-after l address now v =
    ground (arith, kept_rate l address now v, allow-purge (rate_of l address) now now)

allow_client-rate_of :
    (l : ClientRequestLimiter) (address j : IpAddr) (now : ℕ)
    → Inv l
    → rate_of (allow_client l address now).0 j ≡ (
        if ip_eq address j && not (is_full l address now)
        then (allow (rate_of l j) now).0
        else purge (rate_of l j) now)
allow_client-rate_of l address j now v = ground (
  arith,
  allow_client-after l address now v,
  kept_rate l j now v,
  ip_eq_iff address j,
  lookup-insert address j (allow (rate_of l address) now).0 (drop_idle now l.clients),
)

allow_client-limits :
    (l : ClientRequestLimiter) (address : IpAddr) (now : ℕ)
    → ((allow_client l address now).0.max_attempts ≡ l.max_attempts)
      × ((allow_client l address now).0.window ≡ l.window)
      × ((allow_client l address now).0.max_clients ≡ l.max_clients)
unfolding allow_client
allow_client-limits l address now = ground arith

allow_client-table :
    (l : ClientRequestLimiter) (address : IpAddr) (now : ℕ)
    → Inv l
    → Distinct (allow_client l address now).0.clients
      × (length (allow_client l address now).0.clients ≤ l.max_clients)
allow_client-table l address now v =
    let kept = drop_idle now l.clients in
    ground (
      arith,
      v.bounded,
      allow_client-after l address now v,
      drop_idle-Distinct now l.clients v.distinct,
      length-drop_idle-le now l.clients,
      insert-Distinct address (allow (rate_of l address) now).0 kept,
      length-insert address (allow (rate_of l address) now).0 kept,
    )

purge_keeps :
    (r : RequestRate) (now : ℕ)
    → ((purge r now).max_attempts ≡ r.max_attempts) × ((purge r now).window ≡ r.window)
unfolding purge
purge_keeps r now = (refl, refl)

allow_client-uniform :
    (l : ClientRequestLimiter) (address j : IpAddr) (now : ℕ)
    → Inv l
    → ((rate_of (allow_client l address now).0 j).max_attempts ≡ l.max_attempts)
      × ((rate_of (allow_client l address now).0 j).window ≡ l.window)
allow_client-uniform l address j now v = ground (
  arith,
  allow_client-rate_of l address j now v,
  allow_keeps (rate_of l j) now,
  purge_keeps (rate_of l j) now,
  v.uniform j,
)

pub allow_client-Inv :
    (l : ClientRequestLimiter) (address : IpAddr) (now : ℕ)
    → Inv l
    → Inv (allow_client l address now).0
allow_client-Inv l address now v =
    let (m, w, c) = allow_client-limits l address now in
    record {
      distinct = (allow_client-table l address now v).0;
      bounded = rw c (allow_client-table l address now v).1;
      uniform = λ j. let u = allow_client-uniform l address j now v in (u.0 ∙ sym m, u.1 ∙ sym w);
    }

pub new_limiter-Inv : (max window clients : ℕ) → Inv (new_limiter max window clients)
unfolding new_limiter new Assoc.lookup
new_limiter-Inv max window clients = record {
  distinct = tt;
  bounded = omega arith;
  uniform = λ j. (refl, refl);
}

-- The calls of all connections on the shared limiter.
unfoldable pub run_clients : ClientRequestLimiter → List (IpAddr × ℕ) → ClientRequestLimiter
run_clients l [] = l
run_clients l ((address, now) ∷ calls) = run_clients (allow_client l address now).0 calls

run_clients-Inv :
    (l : ClientRequestLimiter) (calls : List (IpAddr × ℕ)) → Inv l → Inv (run_clients l calls)
unfolding run_clients
run_clients-Inv l [] v = v
run_clients-Inv l ((address, now) ∷ calls) v =
    run_clients-Inv (allow_client l address now).0 calls (allow_client-Inv l address now v)

-- Whatever addresses make requests and at whatever times, the table that a fresh limiter comes to
-- has distinct addresses, at most `max_clients` of them, and each has the limiter's own bounds.
pub run_clients-new_limiter :
    (max window clients : ℕ) (calls : List (IpAddr × ℕ))
    → Inv (run_clients (new_limiter max window clients) calls)
run_clients-new_limiter max window clients calls =
    run_clients-Inv (new_limiter max window clients) calls (new_limiter-Inv max window clients)

-- From a table that any calls have led to, a call is answered by the window of its own address
-- alone, or refused when the table is full. From the time of the call on, the window of that
-- address answers as if it alone had been asked, and that of every other address as if nothing had
-- happened.
pub allow_client-isolated :
    (l : ClientRequestLimiter) (address j : IpAddr) (now later : ℕ)
    → Inv l
    → now ≤ later
    → ((allow_client l address now).1
        ≡ (if is_full l address now then false else (allow (rate_of l address) now).1))
      × (allow (rate_of (allow_client l address now).0 j) later ≡ (
          if ip_eq address j && not (is_full l address now)
          then allow (allow (rate_of l j) now).0 later
          else allow (rate_of l j) later))
allow_client-isolated l address j now later v h = (
  allow_client-answer l address now v,
  ground (arith, allow_client-rate_of l address j now v, allow-purge (rate_of l j) now later),
)
