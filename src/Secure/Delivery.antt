-- ===== src/Secure/Delivery.antt =====
-- remote_crypto.rs: one chunk on its way from the sender to the receiver.
use ale_my_eyes_desktop.Prelude.{
  ℕ, suc, ◌+◌, ◌^◌, ◌≤◌, ◌<◌, ◌≡◌, refl, ap, sym, ◌∙◌, ◌⊎◌, Option, none, some, List, [], ◌∷◌, ◌++◌,
  arith, length, All,
}
use ale_my_eyes_desktop.Prelude.Bytes.{Bytes}
use ale_my_eyes_desktop.Prelude.Result.{Result, ok}
use ale_my_eyes_desktop.Secure.{
  ChannelError, Transport, Json, IncomingMessage, SecureChannel, chunk_frame, cons_frame,
  encrypt_chunks, parse, append_chunk, accept_chunk, accept_frame, decrypt_frame, receive_all,
  Reply,
}
use ale_my_eyes_desktop.Secure.Header.{
  length-chunk_frame, frame_id-chunk_frame, frame_index-chunk_frame, frame_total-chunk_frame,
  body-chunk_frame, starts_with-chunk_frame,
}

-- Documented behaviour of a Noise transport: what one side writes, within the limit of 65535 bytes
-- of a Noise message, the other reads in the same order, and the tag takes 16 bytes.
pub record Reliable (noise : Transport) (Synced : noise.State → noise.State → Type 0) : Type 0 where
  pub deliver :
      (s r : noise.State) (plain : Bytes)
      → Synced s r
      → length plain ≤ 65519
      → (frame : Bytes) × (s' r' : noise.State) × (noise.write s plain ≡ (some frame, s'))
        × (noise.read r frame ≡ (some plain, r'))
        × (length frame ≡ length plain + 16)
        × Synced s' r'

-- Before the chunk of an index: the chunks so far are held, or it is the first and nothing is held.
abbrev pub Awaits : (id total index : ℕ) → Bytes → Option IncomingMessage → Type 0
Awaits id total index payload held =
    ((0 < index)
      × (held
          ≡ some (record { id = id; total_chunks = total; next_chunk = index; payload = payload })))
    ⊎ ((held ≡ none) × (index ≡ 0) × (payload ≡ []))

module _ (noise : Transport) {Message : Type 0} (json : Json Message) where
  accept_frame-chunk_frame :
      (c : SecureChannel noise) (max_size id index total : ℕ) (body : Bytes)
      → id < 2 ^ 64
      → index < 2 ^ 32
      → total < 2 ^ 32
      → accept_frame noise json c max_size (chunk_frame id index total body)
        ≡ accept_chunk noise json c max_size id index total body
  unfolding accept_frame
  accept_frame-chunk_frame c max_size id index total body hid hi ht = ground (
    arith,
    starts_with-chunk_frame id index total body,
    length-chunk_frame id index total body,
    frame_id-chunk_frame id index total body hid,
    frame_index-chunk_frame id index total body hi,
    frame_total-chunk_frame id index total body ht,
    body-chunk_frame id index total body,
  )

  -- A chunk that is not the last is kept.
  accept_chunk-middle :
      (c : SecureChannel noise) (max_size id index total : ℕ) (payload body : Bytes)
      → Awaits id total index payload c.incoming
      → suc index < total
      → length payload + length body ≤ max_size
      → accept_chunk noise json c max_size id index total body ≡ (
        record c {
          incoming = some (record {
            id = id;
            total_chunks = total;
            next_chunk = suc index;
            payload = payload ++ body;
          });
        },
        ok none,
      )
  unfolding accept_chunk append_chunk
  accept_chunk-middle c max_size id index total payload body w h k = ground arith

  -- The last chunk completes the message.
  accept_chunk-last :
      (c : SecureChannel noise) (max_size id index total : ℕ) (payload body : Bytes)
      → Awaits id total index payload c.incoming
      → suc index ≡ total
      → length payload + length body ≤ max_size
      → accept_chunk noise json c max_size id index total body
        ≡ (record c { incoming = none }, parse noise json (payload ++ body))
  unfolding accept_chunk append_chunk
  accept_chunk-last c max_size id index total payload body w h k = ground arith

  -- What the receiver answers to the frames of one message: nothing until the last.
  abbrev pub replies_to {ℓ} : {A : Type ℓ} → List A → Reply noise json → List (Reply noise json)
  replies_to [] last = []
  replies_to (x ∷ []) last = last ∷ []
  replies_to (x ∷ y ∷ rest) last = ok none ∷ replies_to (y ∷ rest) last

  -- Both sides after the frames were carried over.
  abbrev pub Carried :
      (noise.State → noise.State → Type 0)
      → Result ChannelError (List Bytes) × noise.State
      → SecureChannel noise
      → ℕ
      → Reply noise json
      → Type 0
  Carried Synced sent c max_size last =
      (frames : List Bytes) × (s' r' : noise.State) × (sent ≡ (ok frames, s'))
      × (receive_all noise json c max_size frames
          ≡ (record { transport = r'; incoming = none }, replies_to frames last))
      × All (λ f. length f ≤ 49168) frames
      × (0 < length frames)
      × Synced s' r'

  replies_to-cons {ℓ} :
      {A : Type ℓ} (x : A) (rest : List A) (last : Reply noise json)
      → 0 < length rest
      → replies_to (x ∷ rest) last ≡ ok none ∷ replies_to rest last
  replies_to-cons x [] last h = absurd (omega arith)
  replies_to-cons x (y ∷ rest) last h = refl

  pub decrypt_frame-delivered :
      (c : SecureChannel noise) (max_size : ℕ) (frame plain : Bytes) (r' : noise.State)
      → noise.read c.transport frame ≡ (some plain, r')
      → length frame ≤ 49168
      → decrypt_frame noise json c max_size frame
        ≡ accept_frame noise json (record c { transport = r' }) max_size plain
  unfolding decrypt_frame
  decrypt_frame-delivered c max_size frame plain r' e h = ground arith

  pub encrypt_chunks-cons :
      (s s' : noise.State) (id total index : ℕ) (b frame : Bytes) (rest : List Bytes)
      → noise.write s (chunk_frame id index total b) ≡ (some frame, s')
      → encrypt_chunks noise s id total index (b ∷ rest)
        ≡ cons_frame noise frame (encrypt_chunks noise s' id total (suc index) rest)
  unfolding encrypt_chunks
  encrypt_chunks-cons s s' id total index b frame rest e =
      rw (e, encrypt_chunks) (rw (ap {A = Option Bytes × noise.State} (λ p. p.1) e))

  pub receive_all-cons :
      (c c' c'' : SecureChannel noise) (max_size : ℕ) (frame : Bytes) (frames : List Bytes)
      (reply : Reply noise json) (replies : List (Reply noise json))
      → decrypt_frame noise json c max_size frame ≡ (c', reply)
      → receive_all noise json c' max_size frames ≡ (c'', replies)
      → receive_all noise json c max_size (frame ∷ frames) ≡ (c'', reply ∷ replies)
  unfolding receive_all
  receive_all-cons c c' c'' max_size frame frames reply replies e f = rw (e, f)

  pub receive_last :
      (c : SecureChannel noise) (max_size id index total : ℕ) (payload body frame : Bytes)
      (r' : noise.State)
      → noise.read c.transport frame ≡ (some (chunk_frame id index total body), r')
      → length frame ≤ 49168
      → id < 2 ^ 64
      → total < 2 ^ 32
      → Awaits id total index payload c.incoming
      → suc index ≡ total
      → length payload + length body ≤ max_size
      → decrypt_frame noise json c max_size frame
        ≡ (record { transport = r'; incoming = none }, parse noise json (payload ++ body))
  receive_last c max_size id index total payload body frame r' e short hid ht aw last fits =
      decrypt_frame-delivered c max_size frame (chunk_frame id index total body) r' e short
      ∙ accept_frame-chunk_frame (record c { transport = r' }) max_size id index total body hid
          (omega arith) ht
      ∙ accept_chunk-last (record c { transport = r' }) max_size id index total payload body aw last
          fits

  pub receive_middle :
      (c : SecureChannel noise) (max_size id index total : ℕ) (payload body frame : Bytes)
      (r' : noise.State)
      → noise.read c.transport frame ≡ (some (chunk_frame id index total body), r')
      → length frame ≤ 49168
      → id < 2 ^ 64
      → total < 2 ^ 32
      → Awaits id total index payload c.incoming
      → suc index < total
      → length payload + length body ≤ max_size
      → decrypt_frame noise json c max_size frame ≡ (
        record {
          transport = r';
          incoming = some (record {
            id = id;
            total_chunks = total;
            next_chunk = suc index;
            payload = payload ++ body;
          });
        },
        ok none,
      )
  receive_middle c max_size id index total payload body frame r' e short hid ht aw more fits =
      decrypt_frame-delivered c max_size frame (chunk_frame id index total body) r' e short
      ∙ accept_frame-chunk_frame (record c { transport = r' }) max_size id index total body hid
          (omega arith) ht
      ∙ accept_chunk-middle (record c { transport = r' }) max_size id index total payload body aw
          more fits

  pub carry_cons :
      (Synced : noise.State → noise.State → Type 0)
      (sent sent' : Result ChannelError (List Bytes) × noise.State) (c c' : SecureChannel noise)
      (max_size : ℕ) (frame : Bytes) (last : Reply noise json)
      → sent ≡ cons_frame noise frame sent'
      → length frame ≤ 49168
      → decrypt_frame noise json c max_size frame ≡ (c', ok none)
      → Carried Synced sent' c' max_size last
      → Carried Synced sent c max_size last
  carry_cons Synced sent sent' c c' max_size frame last e short dec
        (frames, s'', r'', enc, rec, bounded, nonempty, sy'') =
      (
        frame ∷ frames,
        s'',
        r'',
        e ∙ ap (cons_frame noise frame) enc,
        receive_all-cons c c' (record { transport = r''; incoming = none }) max_size frame frames
              (ok none) (replies_to frames last) dec rec
            ∙ ap (λ l. (record { transport = r''; incoming = none }, l))
                (sym (replies_to-cons frame frames last nonempty)),
        (short, bounded),
        omega arith,
        sy'',
      )
