-- ===== src/Session/RateLimit/Burst.antt =====
-- remote_server.rs: how many requests `RequestRate` lets through in any stretch of time.
use ale_my_eyes_desktop.Prelude.{
  ℕ, ◌+◌, ◌≤◌, ◌<◌, ◌≡◌, Bool, true, ◌&&◌, List, [], ◌∷◌, ◌++◌, ltb, leb, length, arith, Bool-cases,
  keep_if, length-keep_if-snoc, inl, inr,
}
use ale_my_eyes_desktop.Session.RateLimit.{RequestRate, new, allow}
use ale_my_eyes_desktop.Session.RateLimit.Window.{
  is_recent, within_limit, record_accepted, Ascending, Tracks, allow-decision, allow-Tracks,
  new-Tracks,
}

-- The times of the requests that were answered with yes, after those given.
unfoldable pub accepted_from : RequestRate → List ℕ → List ℕ → List ℕ
accepted_from r accepted [] = accepted
accepted_from r accepted (now ∷ later) =
    accepted_from (allow r now).0 (record_accepted (allow r now).1 accepted now) later

abbrev pub in_stretch : (from window : ℕ) → ℕ → Bool
in_stretch from window a = leb from a && ltb a (from + window)

-- What lies in a stretch that reaches past `now` is recent.
length-stretch-le :
    (from window now : ℕ) (xs : List ℕ)
    → from ≤ now
    → now < from + window
    → length (keep_if (in_stretch from window) xs) ≤ length (keep_if (is_recent window now) xs)
length-stretch-le from window now [] h k = omega arith
length-stretch-le from window now (x ∷ xs) h k =
    ground (arith, length-stretch-le from window now xs h k)

stretch-snoc :
    (max from window now : ℕ) (xs : List ℕ)
    → within_limit max window xs now ≡ true
    → length (keep_if (in_stretch from window) xs) ≤ max
    → length (keep_if (in_stretch from window) (xs ++ now ∷ [])) ≤ max
stretch-snoc max from window now xs e h = ground (
  arith,
  length-keep_if-snoc (in_stretch from window) xs now,
  length-stretch-le from window now xs,
)

stretch-record :
    (max from window now : ℕ) (xs : List ℕ)
    → length (keep_if (in_stretch from window) xs) ≤ max
    → length
        (keep_if (in_stretch from window) (record_accepted (within_limit max window xs now) xs now))
      ≤ max
stretch-record max from window now xs h = elim (Bool-cases (within_limit max window xs now)) [
  | inl e ↦ rw e (stretch-snoc max from window now xs e h)
  | inr e ↦ rw e h
]

burst_from :
    (max window from : ℕ) (r : RequestRate) (accepted : List ℕ) (last : ℕ) (times : List ℕ)
    → 0 < window
    → Tracks max window r accepted last
    → Ascending last times
    → length (keep_if (in_stretch from window) accepted) ≤ max
    → length (keep_if (in_stretch from window) (accepted_from r accepted times)) ≤ max
unfolding accepted_from
burst_from max window from r accepted last [] pos k asc h = h
burst_from max window from r accepted last (now ∷ later) pos k asc h =
    rw (allow-decision max window r accepted last now k asc.0) (
      burst_from max window from (allow r now).0
        (record_accepted (within_limit max window accepted now) accepted now) now later pos
        (allow-Tracks max window r accepted last now pos k asc.0) asc.1
        (stretch-record max from window now accepted h))

-- Whatever requests come, at times that never fall, no stretch of time as long as the window holds
-- more than `max` requests that were let through.
pub accepted_from-burst :
    (max window from : ℕ) (times : List ℕ)
    → 0 < window
    → Ascending 0 times
    → length (keep_if (in_stretch from window) (accepted_from (new max window) [] times)) ≤ max
accepted_from-burst max window from times pos asc =
    burst_from max window from (new max window) [] 0 times pos (new-Tracks max window) asc
      (omega arith)
