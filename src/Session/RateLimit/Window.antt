-- ===== src/Session/RateLimit/Window.antt =====
-- remote_server.rs: `RequestRate` against the list of all requests it has accepted.
use mathlib.Core.Path.{ap₂}
use ale_my_eyes_desktop.Prelude.{
  ℕ, ◌-◌, ◌≤◌, ◌<◌, ◌≡◌, refl, ap, ◌∙◌, inl, inr, Bool, true, false, List, [], ◌∷◌, ◌++◌, ltb, leb,
  length, arith, Bool-cases, All, keep_if, keep_if-append, All-append,
}
use ale_my_eyes_desktop.Session.RateLimit.{RequestRate, new, purge_front, purge, allow}

-- The specification: a request is accepted when fewer than `max` of those accepted so far are
-- younger than the window.
abbrev pub is_recent : (window now : ℕ) → ℕ → Bool
is_recent window now a = ltb (now - a) window

abbrev pub within_limit : (max window : ℕ) → List ℕ → ℕ → Bool
within_limit max window accepted now = ltb (length (keep_if (is_recent window now) accepted)) max

abbrev pub record_accepted : Bool → List ℕ → ℕ → List ℕ
record_accepted true accepted now = accepted ++ now ∷ []
record_accepted false accepted now = accepted

unfoldable pub decide : (max window : ℕ) → List ℕ → List ℕ → List Bool
decide max window accepted [] = []
decide max window accepted (now ∷ later) =
    let allowed = within_limit max window accepted now in
    allowed ∷ decide max window (record_accepted allowed accepted now) later

unfoldable pub run : RequestRate → List ℕ → List Bool
run r [] = []
run r (now ∷ later) = (allow r now).1 ∷ run (allow r now).0 later

-- Times that do not fall, none of them before the given one.
abbrev pub Ascending : ℕ → List ℕ → Type 0
Ascending from [] = Unit
Ascending from (t ∷ ts) = (from ≤ t) × Ascending t ts

keep_recent :
    (now window from : ℕ) (xs : List ℕ)
    → now - from < window
    → Ascending from xs
    → keep_if (is_recent window now) xs ≡ xs
keep_recent now window from [] h k = refl
keep_recent now window from (x ∷ xs) h k =
    ground (arith, keep_recent now window x xs (omega arith) k.1)

-- On ascending times the loop of `purge` drops all that are too old.
pub purge_front-keep_if :
    (now window from : ℕ) (xs : List ℕ)
    → Ascending from xs
    → purge_front now window xs ≡ keep_if (is_recent window now) xs
unfolding purge_front
purge_front-keep_if now window from [] h = refl
purge_front-keep_if now window from (x ∷ xs) h = elim (Bool-cases (leb window (now - x))) [
  | inl e ↦ ground (arith, purge_front-keep_if now window x xs h.1)
  | inr e ↦ ground (arith, keep_recent now window x xs (ground arith) h.1)
]

-- What is too old at one time is too old later.
keep_if-later :
    (before now window : ℕ) (xs : List ℕ)
    → before ≤ now
    → keep_if (is_recent window now) (keep_if (is_recent window before) xs)
      ≡ keep_if (is_recent window now) xs
keep_if-later before now window [] h = refl
keep_if-later before now window (x ∷ xs) h = ground (arith, keep_if-later before now window xs h)

Ascending-lower :
    (from first : ℕ) (xs : List ℕ) → from ≤ first → Ascending first xs → Ascending from xs
Ascending-lower from first [] h k = tt
Ascending-lower from first (x ∷ xs) h k = (omega arith, k.1)

Ascending-keep_if :
    (p : ℕ → Bool) (from : ℕ) (xs : List ℕ) → Ascending from xs → Ascending from (keep_if p xs)
Ascending-keep_if p from [] h = tt
Ascending-keep_if p from (x ∷ xs) h =
    ground (arith, Ascending-keep_if p x xs h.1, Ascending-lower from x (keep_if p xs))

Ascending-snoc :
    (from t : ℕ) (xs : List ℕ)
    → from ≤ t
    → Ascending from xs
    → All (λ a. a ≤ t) xs
    → Ascending from (xs ++ t ∷ [])
Ascending-snoc from t [] h k b = (h, tt)
Ascending-snoc from t (x ∷ xs) h k b = (k.0, Ascending-snoc x t xs b.0 k.1 b.1)

All-le-later : (s t : ℕ) (xs : List ℕ) → s ≤ t → All (λ a. a ≤ s) xs → All (λ a. a ≤ t) xs
All-le-later s t [] h b = tt
All-le-later s t (x ∷ xs) h b = (omega arith, All-le-later s t xs h b.1)

-- The window holds what is recent of all that was accepted.
pub record Tracks (max window : ℕ) (r : RequestRate) (accepted : List ℕ) (last : ℕ) : Type 0 where
  pub same_max : r.max_attempts ≡ max
  pub same_window : r.window ≡ window
  pub holds_recent : r.attempts ≡ keep_if (is_recent window last) accepted
  pub ascending : Ascending 0 accepted
  pub past : All (λ a. a ≤ last) accepted

purge_keeps :
    (r : RequestRate) (now : ℕ)
    → ((purge r now).max_attempts ≡ r.max_attempts) × ((purge r now).window ≡ r.window)
unfolding purge
purge_keeps r now = (refl, refl)

purge-recent :
    (max window : ℕ) (r : RequestRate) (accepted : List ℕ) (last now : ℕ)
    → Tracks max window r accepted last
    → last ≤ now
    → (purge r now).attempts ≡ keep_if (is_recent window now) accepted
unfolding purge
purge-recent max window r accepted last now k h =
    rw (k.same_window, k.holds_recent)
      (purge_front-keep_if now window 0 (keep_if (is_recent window last) accepted)
          (Ascending-keep_if (is_recent window last) 0 accepted k.ascending)
        ∙ keep_if-later last now window accepted h)

keep_if-snoc_now :
    (now window : ℕ) (xs : List ℕ)
    → 0 < window
    → keep_if (is_recent window now) (xs ++ now ∷ [])
      ≡ keep_if (is_recent window now) xs ++ now ∷ []
keep_if-snoc_now now window xs h =
    keep_if-append (is_recent window now) xs (now ∷ [])
    ∙ ap (◌++◌ (keep_if (is_recent window now) xs)) (ground arith)

pub allow-decision :
    (max window : ℕ) (r : RequestRate) (accepted : List ℕ) (last now : ℕ)
    → Tracks max window r accepted last
    → last ≤ now
    → (allow r now).1 ≡ within_limit max window accepted now
unfolding allow
allow-decision max window r accepted last now k h =
    ground (arith, purge-recent max window r accepted last now k h, purge_keeps r now)

pub allow-Tracks :
    (max window : ℕ) (r : RequestRate) (accepted : List ℕ) (last now : ℕ)
    → 0 < window
    → Tracks max window r accepted last
    → last ≤ now
    → Tracks max window
        (allow r now).0
        (record_accepted (within_limit max window accepted now) accepted now)
        now
unfolding allow
allow-Tracks max window r accepted last now pos k h = ground (
  arith,
  purge-recent max window r accepted last now k h,
  purge_keeps r now,
  keep_if-snoc_now now window accepted pos,
  Ascending-snoc 0 now accepted (omega arith) k.ascending (All-le-later last now accepted h k.past),
  All-le-later last now accepted h k.past,
  All-append (λ a. a ≤ now) accepted (now ∷ []),
)

run-decide_from :
    (max window : ℕ) (r : RequestRate) (accepted : List ℕ) (last : ℕ) (times : List ℕ)
    → 0 < window
    → Tracks max window r accepted last
    → Ascending last times
    → run r times ≡ decide max window accepted times
unfolding run decide
run-decide_from max window r accepted last [] pos k asc = refl
run-decide_from max window r accepted last (now ∷ later) pos k asc =
    ap₂ (λ b l. b ∷ l) (allow-decision max window r accepted last now k asc.0)
      (run-decide_from max window (allow r now).0
        (record_accepted (within_limit max window accepted now) accepted now) now later pos
        (allow-Tracks max window r accepted last now pos k asc.0) asc.1)

pub new-Tracks : (max window : ℕ) → Tracks max window (new max window) [] 0
unfolding new
new-Tracks max window = record {
  same_max = refl;
  same_window = refl;
  holds_recent = refl;
  ascending = tt;
  past = tt;
}

-- On requests at times that never fall, with a window that is not empty, the limiter answers as
-- the specification that remembers every accepted request: yes exactly when fewer than `max`
-- accepted ones are younger than the window.
pub run-decide :
    (max window : ℕ) (times : List ℕ)
    → 0 < window
    → Ascending 0 times
    → run (new max window) times ≡ decide max window [] times
run-decide max window times pos asc =
    run-decide_from max window (new max window) [] 0 times pos (new-Tracks max window) asc
