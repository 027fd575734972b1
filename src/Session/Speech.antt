-- ===== src/Session/Speech.antt =====
-- ale-gui/src/remote_server.rs, `sanitize_speech_text`: what is hidden in a text before a phone shows
-- it or reads it out.
pub mod Clean
use ale_my_eyes_desktop.Prelude.{
  ℕ, Bool, true, false, not, ◌&&◌, ◌||◌, List, [], ◌∷◌, ◌++◌, map, ltb, leb, ◌==◌, if◌then◌else◌,
  is_empty, take, all, keep_if,
}
use ale_my_eyes_desktop.Prelude.Text.{
  Text, codes, is_whitespace, len_utf8, to_ascii_lowercase, starts_with, contains,
}

-- The pieces of a text between its blanks, the empty ones too.
unfoldable pub pieces : Text → List Text
pieces [] = [] ∷ []
pieces (c ∷ s) =
    let rest = pieces s in
    if is_whitespace c then [] ∷ rest else elim rest [ [] ↦ (c ∷ []) ∷ [] | w ∷ ws ↦ (c ∷ w) ∷ ws ]

-- `str::split_whitespace`
unfoldable pub split_whitespace : Text → List Text
split_whitespace s = keep_if (λ w. not (is_empty w)) (pieces s)

-- `join(" ")`
unfoldable pub join : List Text → Text
join [] = []
join (w ∷ []) = w
join (w ∷ v ∷ ws) = w ++ 32 ∷ join (v ∷ ws)

unfoldable pub is_key_byte : ℕ → Bool
is_key_byte c =
    (leb b'a' c && leb c b'z')
    || (leb b'A' c && leb c b'Z')
    || (leb b'0' c && leb c b'9')
    || c == b'-'
    || c == b'_'

unfoldable pub looks_like_secret : Text → Bool
looks_like_secret token =
    starts_with (to_ascii_lowercase token) (codes "sk-")
    || starts_with (to_ascii_lowercase token) (codes "bearer")
    || contains (to_ascii_lowercase token) (codes "password=")
    || contains (to_ascii_lowercase token) (codes "api_key=")
    || (leb 24 (len_utf8 token) && all is_key_byte token)

-- Bytes 1 and 2 of the token, which are its second and third characters when the first one is ASCII.
unfoldable pub has_drive : Text → Bool
has_drive [] = false
has_drive (a ∷ []) = false
has_drive (a ∷ b ∷ []) = false
has_drive (a ∷ b ∷ c ∷ rest) = ltb a 0x80 && b == b':' && (c == b'\\' || c == b'/')

unfoldable pub looks_like_path : Text → Bool
looks_like_path token = starts_with token (codes "/") || (ltb 3 (len_utf8 token) && has_drive token)

abbrev pub hidden_secret : Text
hidden_secret = codes "[敏感信息已隐藏]"

abbrev pub hidden_path : Text
hidden_path = codes "[路径已隐藏]"

-- The body of the loop.
unfoldable pub redact : Text → Text
redact token =
    if looks_like_secret token
    then hidden_secret
    else if looks_like_path token
    then hidden_path
    else token

unfoldable pub sanitize_speech_text : Text → Text
sanitize_speech_text text = join (map redact (take 300 (split_whitespace text)))
