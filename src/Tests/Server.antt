-- ===== src/Tests/Server.antt =====
-- remote_server.rs at work: pending plans, limits of requests and of pairing, and recordings.
use ale_my_eyes_desktop.Prelude.{
  ℕ, ◌+◌, ◌/◌, ◌≡◌, ◌≢◌, refl, ◌≤◌, ◌⊎◌, true, false, not, ◌&&◌, Option, none, some, List, [], ◌∷◌,
  length, arith, keep_if, ltb, if◌then◌else◌,
}
use ale_my_eyes_desktop.Prelude.Text.{Text, codes, text_eq, len_utf8}
use ale_my_eyes_desktop.Prelude.Bytes.{Bytes}
use ale_my_eyes_desktop.Prelude.Result.{ok}
use ale_my_eyes_desktop.Prelude.Assoc
use ale_my_eyes_desktop.Prelude.Assoc.{Distinct, text_key}
use ale_my_eyes_desktop.Actions.{wait, low, ActionPlan}
use ale_my_eyes_desktop.Session.PendingPlans.{
  PendingPlans, insert, take, purge_expired, ConfirmExecution, execute, prepare_confirm,
}
use ale_my_eyes_desktop.Session.PendingPlans.Laws.{Inv, take-insert, prepare_confirm-once}
use ale_my_eyes_desktop.Session.RateLimit as RateLimit
use ale_my_eyes_desktop.Session.RateLimit.{
  IpAddr, v4, ip_eq, RequestRate, ClientRequestLimiter, new_limiter, allow_client, purge_front,
}
use ale_my_eyes_desktop.Session.RateLimit.Window as Window
use ale_my_eyes_desktop.Session.RateLimit.Window.{Ascending, decide, run-decide}
use ale_my_eyes_desktop.Session.RateLimit.Burst.{accepted_from, in_stretch, accepted_from-burst}
use ale_my_eyes_desktop.Session.RateLimit.Clients.{
  rate_of, is_full, run_clients, run_clients-new_limiter, allow_client-isolated,
}
use ale_my_eyes_desktop.Session.Pairing as Pairing
use ale_my_eyes_desktop.Session.Pairing.{default}
use ale_my_eyes_desktop.Session.Pairing.Limiter as Limiter
use ale_my_eyes_desktop.Session.Pairing.History as History
use ale_my_eyes_desktop.Session.Pairing.History.{since_success, run-allow}
use ale_my_eyes_desktop.Session.Audio.{AudioStart, AudioChunk, AudioAssembler, pcm_s16_le, push}
use ale_my_eyes_desktop.Session.Audio.Upload.{IsSound, taken, succeeded, push-IsSound}
use ale_my_eyes_desktop.Session.Audio.Whole.{receive, chunks_of, receive-chunks_of}

abbrev plan : ActionPlan
plan = record {
  actions = wait 5 ∷ [];
  risk_level = low;
  explanation = [];
  requires_confirmation = false;
}

abbrev empty : PendingPlans
empty = record { plans = []; max_entries = 2; ttl = 100 }

abbrev waiting : PendingPlans
waiting = record {
  plans = (codes "a", record { plan = plan; expires_at = 110 }) ∷ [];
  max_entries = 2;
  ttl = 100;
}

empty-Inv : Inv empty
empty-Inv = record { distinct = tt; bounded = omega arith }

waiting-Inv : Inv waiting
unfolding Assoc.lookup
waiting-Inv = record { distinct = (refl, tt); bounded = omega arith }

inserted : insert empty (codes "a") plan 10 ≡ (waiting, true)
unfolding insert purge_expired Assoc.retain Assoc.contains_key Assoc.insert
inserted = refl

abbrev confirm : ConfirmExecution
confirm = record { request_id = codes "a"; approved = true }

confirmed : (prepare_confirm confirm waiting 20).1 ≡ execute (codes "a") plan
unfolding prepare_confirm take purge_expired Assoc.retain Assoc.lookup
confirmed = refl

prepare_confirm-once_example :
    (prepare_confirm confirm (prepare_confirm confirm waiting 20).0 30).1 ≢ execute (codes "a") plan
prepare_confirm-once_example =
    prepare_confirm-once confirm confirm waiting 20 30 (codes "a") plan waiting-Inv (omega arith)
      refl

take-insert_example : (take waiting (codes "a") 50).1 ≡ (
    if text_eq (codes "a") (codes "a")
    then if ltb 50 (10 + 100) then some plan else none
    else (take empty (codes "a") 50).1)
take-insert_example =
    take-insert empty waiting (codes "a") (codes "a") plan 10 50 empty-Inv inserted (omega arith)

abbrev times : List ℕ
times = 1 ∷ 2 ∷ 3 ∷ 11 ∷ []

times-Ascending : Ascending 0 times
times-Ascending = (omega arith, (omega arith, (omega arith, (omega arith, tt))))

-- Two requests in ten milliseconds.
run-decide_example : Window.run (RateLimit.new 2 10) times ≡ decide 2 10 [] times
run-decide_example = run-decide 2 10 times (omega arith) times-Ascending

accepted_from-burst_example :
    length (keep_if (in_stretch 1 10) (accepted_from (RateLimit.new 2 10) [] times)) ≤ 2
accepted_from-burst_example = accepted_from-burst 2 10 1 times (omega arith) times-Ascending

abbrev limiter : ClientRequestLimiter
limiter = run_clients (new_limiter 2 10 1) ((v4 1, 0) ∷ [])

allow_client-isolated_example :
    ((allow_client limiter (v4 2) 3).1 ≡ (
      if is_full limiter (v4 2) 3 then false else (RateLimit.allow (rate_of limiter (v4 2)) 3).1))
    × (RateLimit.allow (rate_of (allow_client limiter (v4 2) 3).0 (v4 1)) 4 ≡ (
        if ip_eq (v4 2) (v4 1) && not (is_full limiter (v4 2) 3)
        then RateLimit.allow (RateLimit.allow (rate_of limiter (v4 1)) 3).0 4
        else RateLimit.allow (rate_of limiter (v4 1)) 4))
allow_client-isolated_example =
    allow_client-isolated limiter (v4 2) (v4 1) 3 4
      (run_clients-new_limiter 2 10 1 ((v4 1, 0) ∷ [])) (omega arith)

abbrev attempts : List History.Call
attempts = History.fails (v4 1) 5 ∷ History.allows (v4 1) 6 ∷ History.succeeds (v4 2) ∷ []

run-allow_example : (Pairing.allow (History.run default attempts) (v4 1) 7).1 ≡ (
    if Limiter.is_full (History.run default attempts) (v4 1) 7
    then false
    else ltb (length (purge_front 7 60000 (since_success (v4 1) [] attempts))) 5)
run-allow_example = run-allow attempts (v4 1) 7 (omega arith, (omega arith, (tt, tt)))

-- Letters that are bytes.
abbrev letters : Text → Option Bytes
letters t = some t

abbrev started : AudioStart
started = record {
  request_id = codes "r";
  format = pcm_s16_le;
  sample_rate_hz = 16000;
  channels = 1;
}

abbrev recording : AudioAssembler
recording = record {
  request_id = codes "r";
  sample_rate_hz = 16000;
  channels = 1;
  next_sequence = 1;
  pcm = 1 ∷ 2 ∷ [];
}

recording-IsSound : IsSound recording
recording-IsSound = record {
  mono = refl;
  slow = omega arith;
  within = omega arith;
  whole = refl;
  counted = omega arith;
}

abbrev chunk : AudioChunk
chunk = record { request_id = codes "r"; sequence = 1; pcm_base64 = 3 ∷ 4 ∷ [] }

push-IsSound_example :
    (((push letters recording chunk).0 ≡ recording)
      × (succeeded (push letters recording chunk).1 ≡ false))
    ⊎ ((bytes : Bytes) × (letters chunk.pcm_base64 ≡ some bytes)
        × (text_eq chunk.request_id recording.request_id ≡ true)
        × (chunk.sequence ≡ recording.next_sequence)
        × (push letters recording chunk ≡ (taken recording bytes, ok tt))
        × IsSound (taken recording bytes))
push-IsSound_example = push-IsSound letters recording chunk recording-IsSound

receive-chunks_of_example :
    receive letters
      (λ b. b)
      (λ channels rate wav. some wav)
      started
      (chunks_of (λ b. b) (codes "r") 0 ((1 ∷ 2 ∷ []) ∷ (3 ∷ 4 ∷ []) ∷ []))
      (record {
        request_id = codes "r";
        chunk_count = 2;
        total_frames = 4 / 2;
        sha256 = 1 ∷ 2 ∷ 3 ∷ 4 ∷ [];
      })
    ≡ ok (513 ∷ 1027 ∷ [])
unfolding len_utf8
receive-chunks_of_example =
    receive-chunks_of letters (λ b. b) (λ b. refl) (λ b. b) (λ channels rate wav. some wav) started
      (1 ∷ 2 ∷ []) ((3 ∷ 4 ∷ []) ∷ []) (513 ∷ 1027 ∷ []) refl (omega arith) (omega arith)
      (omega arith) refl ((omega arith, omega arith, refl), ((omega arith, omega arith, refl), tt))
      (omega arith) refl
