-- ===== src/Secure/Bounds.antt =====
-- remote_crypto.rs: what a peer can make the channel hold, and the state after an error.
use ale_my_eyes_desktop.Prelude.{
  ℕ, ◌≤◌, ◌<◌, ◌≡◌, refl, ◌⊎◌, inl, inr, true, Option, none, some, List, [], ◌∷◌, arith, ltb,
  ltb→lt, Option-cases, Bool-cases, is_some, length, length-append, drop,
}
use ale_my_eyes_desktop.Prelude.Bytes.{Bytes}
use ale_my_eyes_desktop.Prelude.Result.{ok, err}
use ale_my_eyes_desktop.Secure.{
  Transport, Json, IncomingMessage, SecureChannel, parse, accept_whole, append_chunk, accept_chunk,
  accept_frame, decrypt_frame, receive_all, first_chunk, continue_message, accept_read, Reply,
  frame_id, frame_index, frame_total,
}

-- A message under way is within the limit, and is not yet complete.
abbrev pub Fits : ℕ → Option IncomingMessage → Type 0
Fits max_size none = Unit
Fits max_size (some m) = (length m.payload ≤ max_size) × (m.next_chunk < m.total_chunks)

module _ (noise : Transport) {Message : Type 0} (json : Json Message) where
  append_chunk-Fits :
      (c : SecureChannel noise) (max_size id index total : ℕ) (body : Bytes) (m : IncomingMessage)
      → m.next_chunk < m.total_chunks
      → Fits max_size (append_chunk noise json c max_size id index total body m).0.incoming
  unfolding append_chunk
  append_chunk-Fits c max_size id index total body m h =
      ground (arith, length-append m.payload body)

  continue_message-Fits :
      (c : SecureChannel noise) (max_size id index total : ℕ) (body : Bytes)
      (o : Option IncomingMessage)
      → Fits max_size o
      → c.incoming ≡ o
      → Fits max_size (continue_message noise json c max_size id index total body o).0.incoming
  continue_message-Fits c max_size id index total body none h e = rw e tt
  continue_message-Fits c max_size id index total body (some m) h e =
      append_chunk-Fits c max_size id index total body m h.1

  accept_chunk-Fits :
      (c : SecureChannel noise) (max_size id index total : ℕ) (body : Bytes)
      → Fits max_size c.incoming
      → Fits max_size (accept_chunk noise json c max_size id index total body).0.incoming
  unfolding accept_chunk
  accept_chunk-Fits c max_size id index total body h = ground (
    arith,
    append_chunk-Fits c max_size id index total body (first_chunk id total),
    continue_message-Fits c max_size id index total body c.incoming h refl,
  )

  accept_frame-Fits :
      (c : SecureChannel noise) (max_size : ℕ) (out : Bytes)
      → Fits max_size c.incoming
      → Fits max_size (accept_frame noise json c max_size out).0.incoming
  unfolding accept_frame accept_whole
  accept_frame-Fits c max_size out h = ground (
    arith,
    accept_chunk-Fits c max_size (frame_id out) (frame_index out) (frame_total out) (drop 20 out) h,
  )

  accept_read-Fits :
      (c : SecureChannel noise) (max_size : ℕ) (r : Option Bytes × noise.State)
      → Fits max_size c.incoming
      → Fits max_size (accept_read noise json c max_size r).0.incoming
  accept_read-Fits c max_size (none, t) h = h
  accept_read-Fits c max_size (some out, t) h =
      accept_frame-Fits (record c { transport = t }) max_size out h

  decrypt_frame-Fits :
      (c : SecureChannel noise) (max_size : ℕ) (frame : Bytes)
      → Fits max_size c.incoming
      → Fits max_size (decrypt_frame noise json c max_size frame).0.incoming
  unfolding decrypt_frame
  decrypt_frame-Fits c max_size frame h =
      ground (arith, accept_read-Fits c max_size (noise.read c.transport frame) h)

  -- Whatever frames a peer sends, and whatever the transport makes of them, the channel never holds
  -- more than `max_size` bytes of a message under way, and a message that it holds is incomplete.
  pub receive_all-Fits :
      (c : SecureChannel noise) (max_size : ℕ) (frames : List Bytes)
      → Fits max_size c.incoming
      → Fits max_size (receive_all noise json c max_size frames).0.incoming
  unfolding receive_all
  receive_all-Fits c max_size [] h = h
  receive_all-Fits c max_size (frame ∷ frames) h =
      receive_all-Fits (decrypt_frame noise json c max_size frame).0 max_size frames
        (decrypt_frame-Fits c max_size frame h)

  -- What the channel holds after a reply, by the reply: nothing after a message, something after a
  -- chunk that completes none. `Dropped` says which frames leave it alone when they fail.
  abbrev pub Settles :
      Type 0 → Option IncomingMessage → Option IncomingMessage → Reply noise json → Type 0
  Settles Dropped before after (ok none) = is_some after ≡ true
  Settles Dropped before after (ok (some m)) = after ≡ none
  Settles Dropped before after (err e) = (after ≡ none) ⊎ (Dropped × (after ≡ before))

  append_chunk-Settles :
      (D : Type 0) (c : SecureChannel noise) (b : Option IncomingMessage)
      (max_size id index total : ℕ) (body : Bytes) (m : IncomingMessage)
      → let r = append_chunk noise json c max_size id index total body m in
        Settles D b r.0.incoming r.1
  unfolding append_chunk parse
  append_chunk-Settles D c b max_size id index total body m = ground arith

  accept_chunk-Settles :
      (D : Type 0) (c : SecureChannel noise) (max_size id index total : ℕ) (body : Bytes)
      → let r = accept_chunk noise json c max_size id index total body in
        Settles D c.incoming r.0.incoming r.1
  unfolding accept_chunk
  accept_chunk-Settles D c max_size id index total body = elim (Option-cases c.incoming) [
    | inl e ↦ ground (
      arith,
      append_chunk-Settles D c c.incoming max_size id index total body (first_chunk id total),
    )
    | inr (m, e) ↦
        ground (arith, append_chunk-Settles D c c.incoming max_size id index total body m)
  ]

  accept_frame-Settles :
      (D : Type 0) (c : SecureChannel noise) (max_size : ℕ) (out : Bytes)
      → let r = accept_frame noise json c max_size out in Settles D c.incoming r.0.incoming r.1
  unfolding accept_frame accept_whole parse
  accept_frame-Settles D c max_size out = ground (
    arith,
    accept_chunk-Settles D c max_size (frame_id out) (frame_index out) (frame_total out)
        (drop 20 out),
  )

  accept_read-Settles :
      (D : Type 0) (c : SecureChannel noise) (max_size : ℕ) (r : Option Bytes × noise.State)
      → (r.0 ≡ none → D)
      → let a = accept_read noise json c max_size r in Settles D c.incoming a.0.incoming a.1
  accept_read-Settles D c max_size (none, t) d = inr (d refl, refl)
  accept_read-Settles D c max_size (some out, t) d =
      accept_frame-Settles D (record c { transport = t }) max_size out

  -- After each frame: a delivered message leaves nothing under way, a chunk that completes none
  -- leaves a message under way, and an error drops the message under way, unless the frame was
  -- longer than 49168 bytes or the transport could not read it, when that message stays as it was.
  pub decrypt_frame-Settles :
      (c : SecureChannel noise) (max_size : ℕ) (frame : Bytes)
      → let r = decrypt_frame noise json c max_size frame in
        Settles
          ((49168 < length frame) ⊎ ((noise.read c.transport frame).0 ≡ none))
          c.incoming
          r.0.incoming
          r.1
  unfolding decrypt_frame
  decrypt_frame-Settles c max_size frame = elim (Bool-cases (ltb 49168 (length frame))) [
    | inl e ↦ rw (e, decrypt_frame) (inr (inl (ltb→lt 49168 (length frame) e), refl))
    | inr e ↦
        rw (e, decrypt_frame) (accept_read-Settles _ c max_size (noise.read c.transport frame) inr)
  ]
