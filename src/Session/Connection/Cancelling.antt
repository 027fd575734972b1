-- ===== src/Session/Connection/Cancelling.antt =====
-- remote_server.rs, `handle_connection`: what a cancellation and a pause stop.
use ale_my_eyes_desktop.Prelude.{
  ◌≡◌, refl, Bool, true, not, ◌&&◌, ◌||◌, Option, none, some, List, [], ◌∷◌, ◌++◌, map, any, ltb,
  if◌then◌else◌, arith,
}
use ale_my_eyes_desktop.Prelude.Text.{Text, codes, text_eq, text_eq_iff}
use ale_my_eyes_desktop.Prelude.Assoc.{text_key, only_if}
use ale_my_eyes_desktop.Prelude.Assoc
use ale_my_eyes_desktop.Session.PendingPlans as PendingPlans
use ale_my_eyes_desktop.Session.PendingPlans.Laws.{Inv, take-lookup_after}
use ale_my_eyes_desktop.Session.Requests.{Moment, Connection, new_pending, send_remote_error}
use ale_my_eyes_desktop.Session.Handlers.{on_cancel_request, drop_if}
use ale_my_eyes_desktop.Session.Connection.{
  text_lt, insert_once, sort_dedup, to_list, keys, under_way, on_pause,
}
use ale_my_eyes_desktop.Session.Connection.Idle.{is_idle}

-- A recording, a decision, or a task of the request.
abbrev pub has_task : Connection → Text → Bool
has_task c id =
    any (λ r. text_eq r id) (to_list c.processing)
    || any (λ r. text_eq r id) (to_list c.execution)
    || any (λ d. text_eq d.request_id id) (to_list c.deferred)
    || any (λ a. text_eq a.request_id id) (to_list c.active_audio)

drop_if-any :
    {A : Type 0} (id_of : A → Text) (id j : Text) (o : Option A)
    → any (λ a. text_eq (id_of a) j) (to_list (drop_if id_of id o))
      ≡ (not (text_eq id j) && any (λ a. text_eq (id_of a) j) (to_list o))
unfolding drop_if
drop_if-any id_of id j none = ground arith
drop_if-any id_of id j (some a) =
    ground (arith, text_eq_iff (id_of a) id, text_eq_iff (id_of a) j, text_eq_iff id j)

-- In a connection whose plans are in order, a cancellation stops all that is under way for its own
-- request, a plan that waits included, and for every other request nothing but a plan whose time is
-- over.
pub on_cancel_request-stops :
    (m : Moment) (c : Connection) (id j : Text)
    → Inv c.pending
    → (has_task (on_cancel_request m c id) j ≡ (not (text_eq id j) && has_task c j))
      × (Assoc.lookup j (on_cancel_request m c id).pending.plans ≡ (
          if text_eq id j
          then none
          else only_if (λ p. ltb m.now p.expires_at) (Assoc.lookup j c.pending.plans)))
unfolding on_cancel_request
on_cancel_request-stops m c id j v = (
  ground (
    arith,
    drop_if-any (λ r. r) id j c.processing,
    drop_if-any (λ r. r) id j c.execution,
    drop_if-any (λ d. d.request_id) id j c.deferred,
    drop_if-any (λ a. a.request_id) id j c.active_audio,
  ),
  take-lookup_after c.pending id j m.now v,
)

-- Each text comes before the next one.
abbrev pub is_ascending : List Text → Bool
is_ascending [] = true
is_ascending (s ∷ []) = true
is_ascending (s ∷ t ∷ ts) = text_lt s t && is_ascending (t ∷ ts)

text_lt_total : (s t : Text) → (text_eq s t || text_lt s t || text_lt t s) ≡ true
unfolding text_lt
text_lt_total [] [] = refl
text_lt_total [] (d ∷ t) = refl
text_lt_total (c ∷ s) [] = refl
text_lt_total (c ∷ s) (d ∷ t) = ground (arith, text_lt_total s t)

insert_once-ascending :
    (s : Text) (ts : List Text) → is_ascending ts ≡ true → is_ascending (insert_once s ts) ≡ true
unfolding insert_once
insert_once-ascending s [] h = refl
insert_once-ascending s (t ∷ []) h = ground (arith, text_lt_total s t)
insert_once-ascending s (t ∷ u ∷ ts) h =
    ground (arith, text_lt_total s t, text_lt_total s u, insert_once-ascending s (u ∷ ts))

sort_dedup-ascending : (ts : List Text) → is_ascending (sort_dedup ts) ≡ true
unfolding sort_dedup
sort_dedup-ascending [] = refl
sort_dedup-ascending (s ∷ ts) = insert_once-ascending s (sort_dedup ts) (sort_dedup-ascending ts)

insert_once-any :
    (id s : Text) (ts : List Text)
    → any (λ t. text_eq t id) (insert_once s ts) ≡ (text_eq s id || any (λ t. text_eq t id) ts)
unfolding insert_once
insert_once-any id s [] = refl
insert_once-any id s (t ∷ ts) = ground (arith, text_eq_iff s t, insert_once-any id s ts)

sort_dedup-any :
    (id : Text) (ts : List Text)
    → any (λ t. text_eq t id) (sort_dedup ts) ≡ any (λ t. text_eq t id) ts
unfolding sort_dedup
sort_dedup-any id [] = refl
sort_dedup-any id (s ∷ ts) =
    ground (arith, insert_once-any id s (sort_dedup ts), sort_dedup-any id ts)

any-append :
    {A : Type 0} (p : A → Bool) (xs ys : List A) → any p (xs ++ ys) ≡ (any p xs || any p ys)
any-append p [] ys = refl
any-append p (x ∷ xs) ys = ground (arith, any-append p xs ys)

any-map :
    {A B : Type 0} (p : B → Bool) (f : A → B) (xs : List A)
    → any p (map f xs) ≡ any (λ a. p (f a)) xs
any-map p f [] = refl
any-map p f (x ∷ xs) = ground (arith, any-map p f xs)

any-keys :
    {V : Type 0} (id : Text) (m : List (Text × V))
    → any (λ t. text_eq t id) (keys m) ≡ Assoc.contains_key id m
unfolding keys Assoc.contains_key Assoc.lookup
any-keys id [] = refl
any-keys id ((k, v) ∷ m) = ground (arith, any-keys id m)

any-under_way :
    (p : Text → Bool) (plans processing execution deferred audio : List Text)
    → any p (plans ++ (processing ++ (execution ++ (deferred ++ audio))))
      ≡ (any p plans || (any p processing || (any p execution || (any p deferred || any p audio))))
any-under_way p plans processing execution deferred audio = ground (
  arith,
  any-append p plans (processing ++ (execution ++ (deferred ++ audio))),
  any-append p processing (execution ++ (deferred ++ audio)),
  any-append p execution (deferred ++ audio),
  any-append p deferred audio,
)

under_way-any :
    (c : Connection) (id : Text)
    → any (λ t. text_eq t id) (under_way c)
      ≡ (Assoc.contains_key id c.pending.plans || has_task c id)
unfolding under_way
under_way-any c id =
    let plans = keys c.pending.plans in
    let processing = to_list c.processing in
    let execution = to_list c.execution in
    let deferred = map (λ d. d.request_id) (to_list c.deferred) in
    let audio = map (λ a. a.request_id) (to_list c.active_audio) in
    let is_it : Text → Bool = λ t. text_eq t id in
    ground (
      arith,
      sort_dedup-any id (plans ++ (processing ++ (execution ++ (deferred ++ audio)))),
      any-under_way is_it plans processing execution deferred audio,
      any-map is_it (λ d. d.request_id) (to_list c.deferred),
      any-map is_it (λ a. a.request_id) (to_list c.active_audio),
      any-keys id c.pending.plans,
    )

-- A pause, and its end, stops all that is under way, and the phone is told of each request that had
-- something under way, in ascending order without repetition, and of no other.
pub on_pause-cancels :
    (c : Connection) (value : Bool) (id : Text)
    → (is_idle (on_pause c value).0 ≡ true)
      × ((on_pause c value).1
          ≡ map (λ i. send_remote_error (some i) (codes "CANCELLED")) (under_way c))
      × (is_ascending (under_way c) ≡ true)
      × (any (λ t. text_eq t id) (under_way c)
          ≡ (Assoc.contains_key id c.pending.plans || has_task c id))
unfolding on_pause under_way new_pending PendingPlans.new
on_pause-cancels c value id = (refl, refl, sort_dedup-ascending _, under_way-any c id)
