-- ===== src/Pipes/Text.antt =====
-- The text functions of JavaScript that the pipes use.
use Prim.Native.Char.{code}
use Prim.Native.String
use nestjs_template.Common.{
  ℕ, zero, suc, ◌-◌, String, Bool, true, false, ◌&&◌, leb, ◌==◌, ◌===◌, if◌then◌else◌,
}
use nestjs_template.Text.{to_lower, upper_char, starts_with, text_length}
use nestjs_template.Hibp.Text.{trim}

-- `field.replace(/([A-Z])/g, ' $1').replace(/\./g, ' ')`
spaced : String → String
spaced String.[] = ""
spaced (String.◌∷◌ c s) =
    let rest = spaced s in
    if leb 65 (code c) && leb (code c) 90
    then String.◌++◌ " " (String.◌∷◌ c rest)
    else if code c == b'.'
    then String.◌++◌ " " rest
    else String.◌∷◌ c rest

-- `s.charAt(0).toUpperCase() + s.slice(1)`
abbrev capital : String → String
capital String.[] = ""
capital (String.◌∷◌ c s) = String.◌∷◌ (upper_char c) s

unfoldable pub prettify_field_name : String → String
unfolding spaced
prettify_field_name field = capital (trim (to_lower (spaced field)))

-- A replacement text at one match: `$$`, `$&`, `` $` `` and `$'` stand for a dollar, the match, and
-- the texts before and after it. The flag tells that a dollar was read just before.
expand : String → String → String → Bool → String → String
expand before found after dollar String.[] = if dollar then "$" else ""
expand before found after false (String.◌∷◌ c s) =
    let next = expand before found after (code c == b'$') s in
    if code c == b'$' then next else String.◌∷◌ c next
expand before found after true (String.◌∷◌ c s) =
    let next = expand before found after false s in
    if code c == b'$'
    then String.◌++◌ "$" next
    else if code c == b'&'
    then String.◌++◌ found next
    else if code c == 96
    then String.◌++◌ before next
    else if code c == 39
    then String.◌++◌ after next
    else String.◌++◌ "$" (String.◌∷◌ c next)

abbrev drop_chars : ℕ → String → String
drop_chars zero s = s
drop_chars (suc n) String.[] = ""
drop_chars (suc n) (String.◌∷◌ c s) = drop_chars n s

-- The rest of a text after `before`, with `skip` characters still inside of a match.
replace_from : String → String → ℕ → String → String → String
replace_from pattern_ text skip before String.[] =
    if skip == 0 && pattern_ === "" then expand before "" "" false text else ""
replace_from pattern_ text (suc skip) before (String.◌∷◌ c s) =
    replace_from pattern_ text skip (String.◌++◌ before (String.◌∷◌ c "")) s
replace_from pattern_ text zero before (String.◌∷◌ c s) =
    let hit = starts_with pattern_ (String.◌∷◌ c s) in
    let next =
      replace_from pattern_ text (if hit then text_length pattern_ - 1 else 0)
        (String.◌++◌ before (String.◌∷◌ c "")) s in
    if hit
    then String.◌++◌
        (expand before pattern_ (drop_chars (text_length pattern_) (String.◌∷◌ c s)) false text)
        (if pattern_ === "" then String.◌∷◌ c next else next)
    else String.◌∷◌ c next

-- `s.replace(new RegExp(escaped, 'g'), text)`, where the escaped pattern matches itself
unfoldable pub replace_all : String → String → String → String
unfolding expand replace_from
replace_all pattern_ text s = replace_from pattern_ text 0 "" s
