-- ===== src/Secure/Roundtrip.antt =====
-- remote_crypto.rs: what one side encrypts, the other side receives.
use ale_my_eyes_desktop.Prelude.{
  subst, ℕ, suc, ◌+◌, ◌-◌, ◌/◌, ◌^◌, ◌≤◌, ◌<◌, ◌≡◌, refl, ap, ◌∙◌, inl, inr, false, Option, none,
  some, List, [], ◌∷◌, ◌++◌, arith, leb, length, length-append, All, Bool-cases, leb→le,
}
use mathlib.Core.List.{append_assoc, append-nil}
use ale_my_eyes_desktop.Prelude.Text.{starts_with}
use ale_my_eyes_desktop.Prelude.Bytes.{
  Bytes, chunks, concat, concat-chunks, chunks-bounded, length-chunks,
}
use ale_my_eyes_desktop.Prelude.Result.{ok}
use ale_my_eyes_desktop.Secure.{
  Transport, Json, IncomingMessage, chunk_magic, chunk_frame, encrypt_chunks, encrypt_bytes,
  encrypt_message, parse, accept_whole, accept_frame, receive_all,
}
use ale_my_eyes_desktop.Secure.Header.{length-chunk_frame}
use ale_my_eyes_desktop.Secure.Delivery.{
  Reliable, Awaits, Carried, carry_cons, receive_last, receive_middle, receive_all-cons,
  encrypt_chunks-cons, decrypt_frame-delivered,
}

gt_of_leb : (a b : ℕ) → leb a b ≡ false → b < a
gt_of_leb a b h = ground arith

module _ (noise : Transport) {Message : Type 0} (json : Json Message) where
  module _ (Synced : noise.State → noise.State → Type 0) (reliable : Reliable noise Synced) where
    carry_chunks :
        (s r : noise.State) (held : Option IncomingMessage) (max_size id index total : ℕ)
        (payload : Bytes) (rest : List Bytes)
        → Synced s r
        → Awaits id total index payload held
        → id < 2 ^ 64
        → total < 2 ^ 32
        → 0 < length rest
        → index + length rest ≡ total
        → length payload + length (concat rest) ≤ max_size
        → All (λ b. length b ≤ 49132) rest
        → Carried noise json Synced
            (encrypt_chunks noise s id total index rest)
            (record { transport = r; incoming = held })
            max_size
            (parse noise json (payload ++ concat rest))
    carry_chunks s r held max_size id index total payload [] sy aw hid ht ne il fits small =
        absurd (omega arith)
    carry_chunks s r held max_size id index total payload (b ∷ []) sy aw hid ht ne il fits small =
        let (frame, s', r', w, rd, ln, sy') =
          reliable.deliver s r (chunk_frame id index total b) sy
            (omega (arith, length-chunk_frame id index total b)) in
        let short : length frame ≤ 49168 = omega (arith, length-chunk_frame id index total b) in
        (
          frame ∷ [],
          s',
          r',
          encrypt_chunks-cons noise json s s' id total index b frame [] w
              ∙ unfold encrypt_chunks in refl,
          receive_all-cons noise json (record { transport = r; incoming = held })
              (record { transport = r'; incoming = none })
              (record { transport = r'; incoming = none }) max_size frame [] _ []
              (rw append-nil (
                receive_last noise json (record { transport = r; incoming = held }) max_size id
                  index total payload b frame r' rd short hid ht aw (omega arith)
                  (omega (arith, length-append b []))))
              (unfold receive_all in refl),
          (short, tt),
          omega arith,
          sy',
        )
    carry_chunks s r held max_size id index total payload (b ∷ b' ∷ rest) sy aw hid ht ne il fits
          small =
        let (frame, s', r', w, rd, ln, sy') =
          reliable.deliver s r (chunk_frame id index total b) sy
            (omega (arith, length-chunk_frame id index total b)) in
        let short : length frame ≤ 49168 = omega (arith, length-chunk_frame id index total b) in
        carry_cons noise json Synced _ (encrypt_chunks noise s' id total (suc index) (b' ∷ rest))
          (record { transport = r; incoming = held })
          (record {
            transport = r';
            incoming = some (record {
              id = id;
              total_chunks = total;
              next_chunk = suc index;
              payload = payload ++ b;
            });
          })
          max_size frame _
          (encrypt_chunks-cons noise json s s' id total index b frame (b' ∷ rest) w) short
          (receive_middle noise json (record { transport = r; incoming = held }) max_size id index
            total payload b frame r' rd short hid ht aw (omega arith)
            (omega (arith, length-append b (concat (b' ∷ rest)))))
          (rw (← append_assoc payload b (concat (b' ∷ rest))) (
            carry_chunks s' r' _ max_size id (suc index) total (payload ++ b) (b' ∷ rest) sy'
              (inl (omega arith, refl)) hid ht (omega arith) (omega arith)
              (omega (arith, length-append payload b, length-append b (concat (b' ∷ rest))))
              small.1))

    encrypt_bytes-chunked :
        (s : noise.State) (id : ℕ) (payload : Bytes)
        → 49152 < length payload
        → length payload ≤ 1048576
        → encrypt_bytes noise s id payload
          ≡ encrypt_chunks noise s id
              ((length payload + 49132 - 1) / 49132)
              0
              (chunks 49132 payload)
    unfolding encrypt_bytes
    encrypt_bytes-chunked s id payload h k = ground arith

    carry_long :
        (s r : noise.State) (id max_size : ℕ) (payload : Bytes)
        → Synced s r
        → id < 2 ^ 64
        → 49152 < length payload
        → length payload ≤ 1048576
        → length payload ≤ max_size
        → Carried noise json Synced
            (encrypt_bytes noise s id payload)
            (record { transport = r; incoming = none })
            max_size
            (parse noise json payload)
    carry_long s r id max_size payload sy hid long short fits =
        rw (encrypt_bytes-chunked s id payload long short) (
          subst
            (λ p.
              Carried noise json Synced
                (encrypt_chunks noise s id ((length payload + 49132 - 1) / 49132) 0
                  (chunks 49132 payload))
                (record { transport = r; incoming = none }) max_size (parse noise json p))
            (concat-chunks 49132 payload (omega arith))
            (carry_chunks s r none max_size id 0 ((length payload + 49132 - 1) / 49132) []
              (chunks 49132 payload) sy (inr (refl, refl, refl)) hid (omega arith)
              (omega (arith, length-chunks payload)) (omega (arith, length-chunks payload))
              (omega (arith, ap length (concat-chunks 49132 payload (omega arith))))
              (chunks-bounded 49132 payload)))

    accept_frame-whole :
        (r : noise.State) (max_size : ℕ) (payload : Bytes)
        → starts_with payload chunk_magic ≡ false
        → length payload ≤ max_size
        → accept_frame noise json (record { transport = r; incoming = none }) max_size payload
          ≡ (record { transport = r; incoming = none }, parse noise json payload)
    unfolding accept_frame accept_whole
    accept_frame-whole r max_size payload plain fits = ground arith

    encrypt_bytes-single :
        (s s' : noise.State) (id : ℕ) (payload frame : Bytes)
        → length payload ≤ 49152
        → noise.write s payload ≡ (some frame, s')
        → encrypt_bytes noise s id payload ≡ (ok (frame ∷ []), s')
    unfolding encrypt_bytes
    encrypt_bytes-single s s' id payload frame h e = ground arith

    carry_short :
        (s r : noise.State) (id max_size : ℕ) (payload : Bytes)
        → Synced s r
        → length payload ≤ 49152
        → starts_with payload chunk_magic ≡ false
        → length payload ≤ max_size
        → Carried noise json Synced
            (encrypt_bytes noise s id payload)
            (record { transport = r; incoming = none })
            max_size
            (parse noise json payload)
    carry_short s r id max_size payload sy short plain fits =
        let (frame, s', r', w, rd, ln, sy') = reliable.deliver s r payload sy (omega arith) in
        (
          frame ∷ [],
          s',
          r',
          encrypt_bytes-single s s' id payload frame short w,
          receive_all-cons noise json (record { transport = r; incoming = none })
              (record { transport = r'; incoming = none })
              (record { transport = r'; incoming = none }) max_size frame [] _ []
              (decrypt_frame-delivered noise json (record { transport = r; incoming = none })
                  max_size frame payload r' rd (omega arith)
                ∙ accept_frame-whole r' max_size payload plain fits)
              (unfold receive_all in refl),
          (omega arith, tt),
          omega arith,
          sy',
        )

    encrypt_message-bytes :
        (s : noise.State) (id : ℕ) (message : Message) (payload : Bytes)
        → json.to_vec message ≡ some payload
        → encrypt_message noise json s id message ≡ encrypt_bytes noise s id payload
    unfolding encrypt_message
    encrypt_message-bytes s id message payload e = rw (e, encrypt_message)

    parse-from_slice :
        (message : Message) (payload : Bytes)
        → json.from_slice payload ≡ some message
        → parse noise json payload ≡ ok (some message)
    unfolding parse
    parse-from_slice message payload e = rw (e, parse)

    -- A message of at most 1 MiB that JSON reads back, and whose JSON text does not begin with the
    -- magic of a chunk, is encrypted into one or more frames of at most 49168 bytes each; a receiver
    -- in step with the sender and with nothing under way answers nothing to all but the last, and
    -- to the last the message, and again has nothing under way and is in step.
    pub encrypt_message-decrypt_frame :
        (s r : noise.State) (id max_size : ℕ) (message : Message) (payload : Bytes)
        → Synced s r
        → json.to_vec message ≡ some payload
        → json.from_slice payload ≡ some message
        → starts_with payload chunk_magic ≡ false
        → id < 2 ^ 64
        → length payload ≤ 1048576
        → length payload ≤ max_size
        → Carried noise json Synced
            (encrypt_message noise json s id message)
            (record { transport = r; incoming = none })
            max_size
            (ok (some message))
    encrypt_message-decrypt_frame s r id max_size message payload sy to from plain hid short fits =
        rw (encrypt_message-bytes s id message payload to, ← parse-from_slice message payload from)
          (elim (Bool-cases (leb (length payload) 49152)) [
            | inl e ↦ carry_short s r id max_size payload sy (leb→le _ _ e) plain fits
            | inr e ↦
                carry_long s r id max_size payload sy hid (gt_of_leb (length payload) 49152 e) short
                  fits
          ])
