-- ===== src/Tests/Channel.antt =====
-- remote_crypto.rs and model_ipc.rs at work: a channel over a transport that pads each frame, and
-- frames on a stream.
use ale_my_eyes_desktop.Prelude.{
  ℕ, zero, suc, ◌-◌, ◌≡◌, refl, ◌<◌, ◌⊎◌, false, none, some, [], ◌∷◌, ◌++◌, length, take, arith,
  length-append, ap,
}
use ale_my_eyes_desktop.Prelude.Text.{starts_with}
use ale_my_eyes_desktop.Prelude.Bytes.{Bytes, to_be_bytes, take-append}
use ale_my_eyes_desktop.Prelude.Result.{ok}
use ale_my_eyes_desktop.Secure.{
  Transport, Json, SecureChannel, chunk_magic, encrypt_message, decrypt_frame, receive_all,
}
use ale_my_eyes_desktop.Secure.Bounds.{Fits, receive_all-Fits, Settles, decrypt_frame-Settles}
use ale_my_eyes_desktop.Secure.Delivery.{Reliable, Carried}
use ale_my_eyes_desktop.Secure.Roundtrip.{encrypt_message-decrypt_frame}
use ale_my_eyes_desktop.Modeld.Ipc.{Codec, write_message, read_message}
use ale_my_eyes_desktop.Modeld.Ipc.Laws.{read_message-write_message}

-- Sixteen bytes in the place of a tag.
abbrev tag : Bytes
tag = 0 ∷ 0 ∷ 0 ∷ 0 ∷ 0 ∷ 0 ∷ 0 ∷ 0 ∷ 0 ∷ 0 ∷ 0 ∷ 0 ∷ 0 ∷ 0 ∷ 0 ∷ 0 ∷ []

-- The state counts the frames.
abbrev padding : Transport
padding = record {
  State = ℕ;
  write = λ s plain. (some (plain ++ tag), suc s);
  read = λ s frame. (some (take (length frame - 16) frame), suc s);
}

abbrev verbatim : Json Bytes
verbatim = record { to_vec = λ m. some m; from_slice = λ b. some b }

abbrev InStep : ℕ → ℕ → Type 0
InStep s r = s ≡ r

padding-Reliable : Reliable padding InStep
padding-Reliable = record {
  deliver = λ s r plain same small.
      let long = length-append plain tag in
      (
        plain ++ tag,
        suc s,
        suc r,
        refl,
        ap (λ p. (some p, suc r))
            (take-append (length (plain ++ tag) - 16) plain tag (omega (arith, long))),
        long,
        ap suc same,
      );
}

unfoldable ones : ℕ → Bytes
ones zero = []
ones (suc n) = 1 ∷ ones n

length-ones : (n : ℕ) → length (ones n) ≡ n
unfolding ones
length-ones zero = refl
length-ones (suc n) = ap suc (length-ones n)

ones-unmarked : starts_with (ones 60000) chunk_magic ≡ false
unfolding ones
ones-unmarked = refl

-- 60000 bytes take two chunks.
encrypt_message-decrypt_frame_example :
    Carried padding verbatim InStep
      (encrypt_message padding verbatim 0 9 (ones 60000))
      (record { transport = 0; incoming = none })
      1048576
      (ok (some (ones 60000)))
encrypt_message-decrypt_frame_example =
    encrypt_message-decrypt_frame padding verbatim InStep padding-Reliable 0 0 9 1048576
      (ones 60000) (ones 60000) refl refl refl ones-unmarked (omega arith)
      (omega (arith, length-ones 60000)) (omega (arith, length-ones 60000))

abbrev idle : SecureChannel padding
idle = record { transport = 0; incoming = none }

-- The first of two chunks, with one byte; then a frame that is too short.
abbrev first_of_two : Bytes
first_of_two =
    chunk_magic ++ (to_be_bytes 8 9 ++ (to_be_bytes 4 0 ++ (to_be_bytes 4 2 ++ (1 ∷ [])))) ++ tag

receive_all-Fits_example :
    Fits 100 (receive_all padding verbatim idle 100 (first_of_two ∷ tag ∷ [])).0.incoming
receive_all-Fits_example = receive_all-Fits padding verbatim idle 100 (first_of_two ∷ tag ∷ []) tt

decrypt_frame-Settles_example :
    Settles padding verbatim
      ((49168 < length first_of_two) ⊎ ((padding.read 0 first_of_two).0 ≡ none))
      none
      (decrypt_frame padding verbatim idle 100 first_of_two).0.incoming
      (decrypt_frame padding verbatim idle 100 first_of_two).1
decrypt_frame-Settles_example = decrypt_frame-Settles padding verbatim idle 100 first_of_two

abbrev raw : Codec Bytes
raw = record { encode_to_vec = λ m. m; decode = λ b. some b }

written : write_message raw (1 ∷ 2 ∷ 3 ∷ []) ≡ ok (0 ∷ 0 ∷ 0 ∷ 3 ∷ 1 ∷ 2 ∷ 3 ∷ [])
unfolding write_message to_be_bytes
written = refl

read_message-write_message_example :
    read_message raw ((0 ∷ 0 ∷ 0 ∷ 3 ∷ 1 ∷ 2 ∷ 3 ∷ []) ++ (7 ∷ [])) ≡ ok (1 ∷ 2 ∷ 3 ∷ [], 7 ∷ [])
read_message-write_message_example =
    read_message-write_message raw (1 ∷ 2 ∷ 3 ∷ []) (0 ∷ 0 ∷ 0 ∷ 3 ∷ 1 ∷ 2 ∷ 3 ∷ []) (7 ∷ []) refl
      (omega arith) written
