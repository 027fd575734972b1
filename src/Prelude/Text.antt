-- ===== src/Prelude/Text.antt =====
-- Rust's `str`, as the list of its code points: lengths, blanks, ASCII case, substrings.
use Prim.Native.Nat.{ℕ, ◌+◌, ◌≤◌}
use Prim.Native.Char.{code}
use Prim.Native.String.{String}
use mathlib.Core.Path.{◌≡◌, refl}
use mathlib.Core.Logic.{◌↔◌}
use mathlib.Core.Bool.{Bool, true, false, ◌&&◌, ◌||◌}
use mathlib.Core.List.{List, [], ◌∷◌, ◌++◌, map}
use native.Mathlib.Omega.{arith}
use ale_my_eyes_desktop.Prelude.Tests.{ltb, leb, ◌==◌, if◌then◌else◌}
use ale_my_eyes_desktop.Prelude.Lists.{length, all}

abbrev pub Text : Type 0
Text = List ℕ

-- The code points of a literal of the source.
abbrev pub codes : String → Text
codes String.[] = []
codes (String.◌∷◌ c s) = code c ∷ codes s

-- `str::len` counts the bytes of UTF-8.
abbrev pub char_len_utf8 : ℕ → ℕ
char_len_utf8 c =
    if ltb c 0x80 then 1 else (if ltb c 0x800 then 2 else (if ltb c 0x10000 then 3 else 4))

unfoldable pub len_utf8 : Text → ℕ
len_utf8 [] = 0
len_utf8 (c ∷ s) = char_len_utf8 c + len_utf8 s

-- `char::is_whitespace`: the property White_Space.
unfoldable pub is_whitespace : ℕ → Bool
is_whitespace c =
    (leb 9 c && leb c 13)
    || c == 32
    || c == 0x85
    || c == 0xa0
    || c == 0x1680
    || (leb 0x2000 c && leb c 0x200a)
    || c == 0x2028
    || c == 0x2029
    || c == 0x202f
    || c == 0x205f
    || c == 0x3000

-- `s.trim().is_empty()`: a text is trimmed to nothing when all of it is blank.
unfoldable pub trim_is_empty : Text → Bool
trim_is_empty s = all is_whitespace s

unfoldable pub to_ascii_lowercase_char : ℕ → ℕ
to_ascii_lowercase_char c = if leb b'A' c && leb c b'Z' then c + 32 else c

unfoldable pub to_ascii_lowercase : Text → Text
to_ascii_lowercase s = map to_ascii_lowercase_char s

abbrev pub text_eq : Text → Text → Bool
text_eq [] [] = true
text_eq [] (d ∷ t) = false
text_eq (c ∷ s) [] = false
text_eq (c ∷ s) (d ∷ t) = c == d && text_eq s t

abbrev pub starts_with : Text → Text → Bool
starts_with s [] = true
starts_with [] (d ∷ t) = false
starts_with (c ∷ s) (d ∷ t) = c == d && starts_with s t

-- `str::contains`: whether the second text stands somewhere in the first.
abbrev pub contains : Text → Text → Bool
contains [] t = starts_with [] t
contains (c ∷ s) t = starts_with (c ∷ s) t || contains s t

pub text_eq_refl : (s : Text) → text_eq s s ≡ true
text_eq_refl [] = refl
text_eq_refl (c ∷ s) = ground (arith, text_eq_refl s)

text_eq_sound : (s t : Text) → text_eq s t ≡ true → s ≡ t
text_eq_sound [] [] h = refl
text_eq_sound [] (d ∷ t) h = cc
text_eq_sound (c ∷ s) [] h = cc
text_eq_sound (c ∷ s) (d ∷ t) h = ground (arith, text_eq_sound s t)

pub text_eq_iff : (s t : Text) → (text_eq s t ≡ true) ↔ (s ≡ t)
text_eq_iff s t = (text_eq_sound s t, λ e. rw e (text_eq_refl t))

pub length-le-len_utf8 : (s : Text) → length s ≤ len_utf8 s
unfolding len_utf8
length-le-len_utf8 [] = omega arith
length-le-len_utf8 (c ∷ s) = ground (arith, length-le-len_utf8 s)

lowercase_char_twice :
    (c : ℕ) → to_ascii_lowercase_char (to_ascii_lowercase_char c) ≡ to_ascii_lowercase_char c
unfolding to_ascii_lowercase_char
lowercase_char_twice c = ground arith

pub to_ascii_lowercase_idem :
    (s : Text) → to_ascii_lowercase (to_ascii_lowercase s) ≡ to_ascii_lowercase s
unfolding to_ascii_lowercase
to_ascii_lowercase_idem [] = refl
to_ascii_lowercase_idem (c ∷ s) = rw (lowercase_char_twice c, to_ascii_lowercase_idem s)

starts_with-append : (s t u : Text) → starts_with s t ≡ true → starts_with (s ++ u) t ≡ true
starts_with-append s [] u h = refl
starts_with-append [] (d ∷ t) u h = cc
starts_with-append (c ∷ s) (d ∷ t) u h = ground (arith, starts_with-append s t u)

contains-append_right : (s t u : Text) → contains s t ≡ true → contains (s ++ u) t ≡ true
contains-append_right [] [] [] h = refl
contains-append_right [] [] (c ∷ u) h = refl
contains-append_right [] (d ∷ t) u h = cc
contains-append_right (c ∷ s) t u h =
    ground (arith, starts_with-append (c ∷ s) t u, contains-append_right s t u)

contains-append_left : (u s t : Text) → contains s t ≡ true → contains (u ++ s) t ≡ true
contains-append_left [] s t h = h
contains-append_left (c ∷ u) s t h = ground (arith, contains-append_left u s t)

-- A text that stands inside another lends it all its substrings.
pub contains-around :
    (before s after t : Text) → contains s t ≡ true → contains (before ++ (s ++ after)) t ≡ true
contains-around before s after t h =
    contains-append_left before (s ++ after) t (contains-append_right s t after h)
