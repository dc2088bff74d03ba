-- ===== src/Text.antt =====
-- Text functions of JavaScript: `toLowerCase`, `toUpperCase`, `startsWith`, `includes`, `split` and
-- `join`. A letter beyond ASCII keeps its case here; the code compares the results with ASCII words
-- only.
use Prim.Native.Char.{Char, code}
use Prim.Native.String
use nestjs_template.Common.{
  ℕ, suc, ◌-◌, String, Bool, true, false, ◌&&◌, ◌||◌, leb, ◌==◌, if◌then◌else◌,
}

abbrev lower_char : Char → Char
lower_char c =
    if leb 65 (code c) && leb (code c) 90
    then String.char_at "abcdefghijklmnopqrstuvwxyz" (code c - 65)
    else c

abbrev pub upper_char : Char → Char
upper_char c =
    if leb 97 (code c) && leb (code c) 122
    then String.char_at "ABCDEFGHIJKLMNOPQRSTUVWXYZ" (code c - 97)
    else c

unfoldable pub to_lower : String → String
to_lower String.[] = ""
to_lower (String.◌∷◌ c s) = String.◌∷◌ (lower_char c) (to_lower s)

unfoldable pub starts_with : String → String → Bool
starts_with String.[] s = true
starts_with (String.◌∷◌ p ps) String.[] = false
starts_with (String.◌∷◌ p ps) (String.◌∷◌ c s) = code p == code c && starts_with ps s

-- `s.includes(part)`, the part first
unfoldable pub contains : String → String → Bool
unfolding starts_with
contains part String.[] = starts_with part ""
contains part (String.◌∷◌ c s) = starts_with part (String.◌∷◌ c s) || contains part s

-- Whether a character counts for `\w`.
abbrev is_word : Char → Bool
is_word c =
    (leb 48 (code c) && leb (code c) 57)
    || (leb 65 (code c) && leb (code c) 90)
    || code c == 95
    || (leb 97 (code c) && leb (code c) 122)

-- `s.replace(/\b\w/g, (c) => c.toUpperCase())`, after a character that is one of a word or not
capitals : Bool → String → String
capitals inside String.[] = ""
capitals inside (String.◌∷◌ c s) =
    String.◌∷◌ (if inside then c else upper_char c) (capitals (is_word c) s)

-- `s.replace(/-/g, ' ')`
hyphens : String → String
hyphens String.[] = ""
hyphens (String.◌∷◌ c s) =
    let rest = hyphens s in if code c == b'-' then String.◌++◌ " " rest else String.◌∷◌ c rest

unfoldable pub capitalize : String → String
unfolding capitals hyphens
capitalize s = capitals false (hyphens s)

-- The number of characters.
unfoldable pub text_length : String → ℕ
text_length String.[] = 0
text_length (String.◌∷◌ c s) = suc (text_length s)
