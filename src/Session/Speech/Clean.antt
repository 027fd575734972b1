-- ===== src/Session/Speech/Clean.antt =====
-- remote_server.rs, `sanitize_speech_text`: what comes out holds no key and no path, and is not
-- changed by another pass.
use ale_my_eyes_desktop.Prelude.{
  ℕ, suc, zero, ◌≤◌, ◌≡◌, refl, ap, ◌∙◌, false, not, List, [], ◌∷◌, ◌++◌, map, is_empty, length,
  take, any, All, keep_if, arith, length-map, length-take,
}
use ale_my_eyes_desktop.Prelude.Text.{
  Text, is_whitespace, len_utf8, to_ascii_lowercase, to_ascii_lowercase_char,
}
use ale_my_eyes_desktop.Session.Speech.{
  pieces, split_whitespace, join, looks_like_secret, looks_like_path, has_drive, is_key_byte,
  hidden_secret, hidden_path, redact, sanitize_speech_text,
}

-- A text that stands by itself between blanks.
abbrev pub IsWord : Text → Type 0
IsWord w = (is_empty w ≡ false) × (any is_whitespace w ≡ false)

-- A word that is not to be hidden.
abbrev pub IsClean : Text → Type 0
IsClean w = (looks_like_secret w ≡ false) × (looks_like_path w ≡ false)

pieces-word : (w : Text) → any is_whitespace w ≡ false → pieces w ≡ w ∷ []
unfolding pieces
pieces-word [] h = refl
pieces-word (c ∷ w) h = ground (arith, pieces-word w)

pieces-append : (w s : Text) → any is_whitespace w ≡ false → pieces (w ++ 32 ∷ s) ≡ w ∷ pieces s
unfolding pieces is_whitespace
pieces-append [] s h = refl
pieces-append (c ∷ w) s h = ground (arith, pieces-append w s)

split-append : (w s : Text) → IsWord w → split_whitespace (w ++ 32 ∷ s) ≡ w ∷ split_whitespace s
unfolding split_whitespace
split-append w s h = ground (arith, pieces-append w s h.1)

split_whitespace-join : (ws : List Text) → All IsWord ws → split_whitespace (join ws) ≡ ws
unfolding split_whitespace join pieces
split_whitespace-join [] h = refl
split_whitespace-join (w ∷ []) h = ground (arith, pieces-word w h.0.1)
split_whitespace-join (w ∷ v ∷ ws) h =
    split-append w (join (v ∷ ws)) h.0 ∙ ap (λ r. w ∷ r) (split_whitespace-join (v ∷ ws) h.1)

-- No blank stands in a piece.
pieces-whole : (s : Text) → All (λ w. any is_whitespace w ≡ false) (pieces s)
unfolding pieces
pieces-whole [] = (refl, tt)
pieces-whole (c ∷ s) = ground (arith, pieces-whole s)

keep_if-words :
    (ws : List Text)
    → All (λ w. any is_whitespace w ≡ false) ws
    → All IsWord (keep_if (λ w. not (is_empty w)) ws)
keep_if-words [] h = tt
keep_if-words ([] ∷ ws) h = keep_if-words ws h.1
keep_if-words ((c ∷ w) ∷ ws) h = ((refl, h.0), keep_if-words ws h.1)

split_whitespace-words : (s : Text) → All IsWord (split_whitespace s)
unfolding split_whitespace
split_whitespace-words s = keep_if-words (pieces s) (pieces-whole s)

hidden_secret-IsWord : IsWord hidden_secret
unfolding is_whitespace
hidden_secret-IsWord = (refl, refl)

hidden_path-IsWord : IsWord hidden_path
unfolding is_whitespace
hidden_path-IsWord = (refl, refl)

redact-IsWord : (w : Text) → IsWord w → IsWord (redact w)
unfolding redact
redact-IsWord w h = ground (arith, hidden_secret-IsWord, hidden_path-IsWord)

redact-words : (n : ℕ) (ws : List Text) → All IsWord ws → All IsWord (map redact (take n ws))
redact-words zero ws h = tt
redact-words (suc n) [] h = tt
redact-words (suc n) (w ∷ ws) h = (redact-IsWord w h.0, redact-words n ws h.1)

hidden_secret-IsClean : IsClean hidden_secret
unfolding looks_like_secret looks_like_path has_drive is_key_byte len_utf8 to_ascii_lowercase
    to_ascii_lowercase_char
hidden_secret-IsClean = (refl, refl)

hidden_path-IsClean : IsClean hidden_path
unfolding looks_like_secret looks_like_path has_drive is_key_byte len_utf8 to_ascii_lowercase
    to_ascii_lowercase_char
hidden_path-IsClean = (refl, refl)

redact-IsClean : (w : Text) → IsClean (redact w)
unfolding redact
redact-IsClean w = ground (arith, hidden_secret-IsClean, hidden_path-IsClean)

redact-redact : (w : Text) → redact (redact w) ≡ redact w
unfolding redact
redact-redact w = ground (arith, redact-IsClean w)

redact-all :
    (n : ℕ) (ws : List Text) → map redact (take n (map redact (take n ws))) ≡ map redact (take n ws)
redact-all zero ws = refl
redact-all (suc n) [] = refl
redact-all (suc n) (w ∷ ws) = rw (redact-redact w, redact-all n ws)

All-redact-IsClean : (ws : List Text) → All IsClean (map redact ws)
All-redact-IsClean [] = tt
All-redact-IsClean (w ∷ ws) = (redact-IsClean w, All-redact-IsClean ws)

-- The words of a sanitized text are the first 300 of the text's, each redacted.
sanitize_speech_text-words :
    (text : Text)
    → split_whitespace (sanitize_speech_text text) ≡ map redact (take 300 (split_whitespace text))
unfolding sanitize_speech_text
sanitize_speech_text-words text =
    split_whitespace-join (map redact (take 300 (split_whitespace text)))
      (redact-words 300 (split_whitespace text) (split_whitespace-words text))

-- A sanitized text has at most 300 words, and none of them looks like a key or like a path.
pub sanitize_speech_text-IsClean :
    (text : Text)
    → All IsClean (split_whitespace (sanitize_speech_text text))
      × (length (split_whitespace (sanitize_speech_text text)) ≤ 300)
sanitize_speech_text-IsClean text =
    let kept = take 300 (split_whitespace text) in
    rw (sanitize_speech_text-words text) (
      All-redact-IsClean kept,
      omega (arith, length-map redact kept, length-take 300 (split_whitespace text)),
    )

-- A sanitized text is left as it is by another pass.
pub sanitize_speech_text-twice :
    (text : Text) → sanitize_speech_text (sanitize_speech_text text) ≡ sanitize_speech_text text
unfolding sanitize_speech_text
sanitize_speech_text-twice text =
    ap (λ ws. join (map redact (take 300 ws))) (sanitize_speech_text-words text)
    ∙ ap join (redact-all 300 (split_whitespace text))
