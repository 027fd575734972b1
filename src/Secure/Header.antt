-- ===== src/Secure/Header.antt =====
-- remote_crypto.rs: the fields of a chunk's header read back as they were written.
use ale_my_eyes_desktop.Prelude.{
  ℕ, ◌+◌, ◌^◌, ◌<◌, ◌≡◌, refl, ap, sym, ◌∙◌, true, ◌++◌, arith, length, length-append, take, drop,
}
use mathlib.Core.List.{append_assoc}
use ale_my_eyes_desktop.Prelude.Text.{starts_with}
use ale_my_eyes_desktop.Prelude.Bytes.{
  Bytes, to_be_bytes, from_be_bytes, from_be_bytes-to_be_bytes, length-to_be_bytes, take-append,
  drop-append,
}
use ale_my_eyes_desktop.Secure.{chunk_magic, chunk_frame, frame_id, frame_index, frame_total}

pub length-chunk_frame :
    (id i total : ℕ) (body : Bytes) → length (chunk_frame id i total body) ≡ 20 + length body
unfolding chunk_frame
length-chunk_frame id i total body = omega (
  arith,
  length-append (to_be_bytes 8 id) (to_be_bytes 4 i ++ (to_be_bytes 4 total ++ body)),
  length-append (to_be_bytes 4 i) (to_be_bytes 4 total ++ body),
  length-append (to_be_bytes 4 total) body,
  length-to_be_bytes 8 id,
  length-to_be_bytes 4 i,
  length-to_be_bytes 4 total,
)

-- What follows the magic and the identifier.
after_id : (id : ℕ) (tail : Bytes) → drop 8 (to_be_bytes 8 id ++ tail) ≡ tail
after_id id tail = drop-append 8 (to_be_bytes 8 id) tail (length-to_be_bytes 8 id)

pub frame_id-chunk_frame :
    (id i total : ℕ) (body : Bytes) → id < 2 ^ 64 → frame_id (chunk_frame id i total body) ≡ id
unfolding frame_id chunk_frame
frame_id-chunk_frame id i total body h =
    ap from_be_bytes (take-append 8 (to_be_bytes 8 id) _ (length-to_be_bytes 8 id))
    ∙ from_be_bytes-to_be_bytes 8 id h

pub frame_index-chunk_frame :
    (id i total : ℕ) (body : Bytes) → i < 2 ^ 32 → frame_index (chunk_frame id i total body) ≡ i
unfolding frame_index chunk_frame
frame_index-chunk_frame id i total body h =
    ap (λ l. from_be_bytes (take 4 l)) (after_id id _)
    ∙ ap from_be_bytes (take-append 4 (to_be_bytes 4 i) _ (length-to_be_bytes 4 i))
    ∙ from_be_bytes-to_be_bytes 4 i h

after_index :
    (id i : ℕ) (tail : Bytes) → drop 12 (to_be_bytes 8 id ++ (to_be_bytes 4 i ++ tail)) ≡ tail
after_index id i tail =
    ap (drop 12) (sym (append_assoc (to_be_bytes 8 id) (to_be_bytes 4 i) tail))
    ∙ drop-append 12 (to_be_bytes 8 id ++ to_be_bytes 4 i) tail (
        omega (
          arith,
          length-append (to_be_bytes 8 id) (to_be_bytes 4 i),
          length-to_be_bytes 8 id,
          length-to_be_bytes 4 i,
        ))

pub frame_total-chunk_frame :
    (id i total : ℕ) (body : Bytes)
    → total < 2 ^ 32
    → frame_total (chunk_frame id i total body) ≡ total
unfolding frame_total chunk_frame
frame_total-chunk_frame id i total body h =
    ap (λ l. from_be_bytes (take 4 l)) (after_index id i _)
    ∙ ap from_be_bytes (take-append 4 (to_be_bytes 4 total) _ (length-to_be_bytes 4 total))
    ∙ from_be_bytes-to_be_bytes 4 total h

pub body-chunk_frame :
    (id i total : ℕ) (body : Bytes) → drop 20 (chunk_frame id i total body) ≡ body
unfolding chunk_frame
body-chunk_frame id i total body =
    ap (drop 16)
      (sym (append_assoc (to_be_bytes 8 id) (to_be_bytes 4 i) (to_be_bytes 4 total ++ body)))
    ∙ ap (drop 16)
        (sym (append_assoc (to_be_bytes 8 id ++ to_be_bytes 4 i) (to_be_bytes 4 total) body))
    ∙ drop-append 16 ((to_be_bytes 8 id ++ to_be_bytes 4 i) ++ to_be_bytes 4 total) body (
        omega (
          arith,
          length-append (to_be_bytes 8 id ++ to_be_bytes 4 i) (to_be_bytes 4 total),
          length-append (to_be_bytes 8 id) (to_be_bytes 4 i),
          length-to_be_bytes 8 id,
          length-to_be_bytes 4 i,
          length-to_be_bytes 4 total,
        ))

pub starts_with-chunk_frame :
    (id i total : ℕ) (body : Bytes) → starts_with (chunk_frame id i total body) chunk_magic ≡ true
unfolding chunk_frame
starts_with-chunk_frame id i total body = refl
