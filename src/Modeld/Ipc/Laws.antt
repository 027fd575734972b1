-- ===== src/Modeld/Ipc/Laws.antt =====
-- model_ipc.rs: a message that was written is read back, whatever follows it on the stream.
use ale_my_eyes_desktop.Prelude.{ℕ, ◌≤◌, ◌<◌, ◌≡◌, refl, some, ◌++◌, length, length-append, arith}
use mathlib.Core.List.{append_assoc}
use ale_my_eyes_desktop.Prelude.Bytes.{
  Bytes, to_be_bytes, from_be_bytes-to_be_bytes, length-to_be_bytes, take-append, drop-append,
}
use ale_my_eyes_desktop.Prelude.Result.{ok}
use ale_my_eyes_desktop.Modeld.Ipc.{Codec, write_message, read_exact, read_body, read_message}

read_exact-append :
    (n : ℕ) (xs rest : Bytes) → length xs ≡ n → read_exact n (xs ++ rest) ≡ ok (xs, rest)
unfolding read_exact
read_exact-append n xs rest h =
    ground (arith, length-append xs rest, take-append n xs rest h, drop-append n xs rest h)

module _ {M : Type 0} (codec : Codec M) where
  write_message-ok :
      (m : M) {bytes : Bytes}
      → write_message codec m ≡ ok bytes
      → (length (codec.encode_to_vec m) ≤ 33554432)
        × (bytes ≡ to_be_bytes 4 (length (codec.encode_to_vec m)) ++ codec.encode_to_vec m)
  unfolding write_message
  write_message-ok m h = ground arith

  read_body-written :
      (m : M) (rest : Bytes)
      → codec.decode (codec.encode_to_vec m) ≡ some m
      → 0 < length (codec.encode_to_vec m)
      → length (codec.encode_to_vec m) ≤ 33554432
      → read_body codec (length (codec.encode_to_vec m)) (codec.encode_to_vec m ++ rest)
        ≡ ok (m, rest)
  read_body-written m rest d some_bytes fits =
      ground (
        arith,
        read_exact-append (length (codec.encode_to_vec m)) (codec.encode_to_vec m) rest refl,
      )

  read_message-written :
      (m : M) (rest : Bytes)
      → codec.decode (codec.encode_to_vec m) ≡ some m
      → 0 < length (codec.encode_to_vec m)
      → length (codec.encode_to_vec m) ≤ 33554432
      → read_message codec
          ((to_be_bytes 4 (length (codec.encode_to_vec m)) ++ codec.encode_to_vec m) ++ rest)
        ≡ ok (m, rest)
  unfolding read_message
  read_message-written m rest d some_bytes fits =
      let size = length (codec.encode_to_vec m) in
      let tail = codec.encode_to_vec m ++ rest in
      rw (append_assoc (to_be_bytes 4 size) (codec.encode_to_vec m) rest) (
        ground (
          arith,
          read_exact-append 4 (to_be_bytes 4 size) tail (length-to_be_bytes 4 size),
          from_be_bytes-to_be_bytes 4 size (omega arith),
          read_body-written m rest d some_bytes fits,
        ))

  -- A message that the codec reads back and that is not encoded to nothing: what `write_message`
  -- puts on the stream, `read_message` reads back, and leaves what follows.
  pub read_message-write_message :
      (m : M) (bytes rest : Bytes)
      → codec.decode (codec.encode_to_vec m) ≡ some m
      → 0 < length (codec.encode_to_vec m)
      → write_message codec m ≡ ok bytes
      → read_message codec (bytes ++ rest) ≡ ok (m, rest)
  read_message-write_message m bytes rest d some_bytes w =
      let (fits, e) = write_message-ok m w in rw e (read_message-written m rest d some_bytes fits)
