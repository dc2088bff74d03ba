-- ===== src/Hibp/Text.antt =====
-- The text functions of JavaScript that the check uses: `slice`, `split('\n')`, `indexOf(':')`,
-- `trim` and `parseInt`.
use Prim.Native.Char.{code}
use Prim.Native.String
use nestjs_template.Common.{
  ℕ, zero, suc, ◌+◌, ◌-◌, ◌*◌, String, Bool, ◌&&◌, ◌||◌, Option, none, some, List, [], ◌∷◌, leb,
  ◌==◌, ◌===◌, if◌then◌else◌,
}

unfoldable pub drop_text : ℕ → String → String
drop_text zero s = s
drop_text (suc n) String.[] = ""
drop_text (suc n) (String.◌∷◌ c s) = drop_text n s

-- `current` is the first line of the rest.
abbrev on_first : String → List String → List String
on_first c [] = c ∷ []
on_first c (line ∷ lines) = String.◌++◌ c line ∷ lines

unfoldable pub split_lines : String → List String
split_lines String.[] = "" ∷ []
split_lines (String.◌∷◌ c s) =
    let rest = split_lines s in if code c == 10 then "" ∷ rest else on_first (String.◌∷◌ c "") rest

-- The texts before and after the first colon.
unfoldable pub split_colon : String → Option (String × String)
split_colon String.[] = none
split_colon (String.◌∷◌ c s) =
    let rest = split_colon s in
    if code c == b':'
    then some ("", s)
    else elim rest [ none ↦ none | some (head, tail) ↦ some (String.◌∷◌ c head, tail) ]

-- JavaScript's white space and line terminators.
abbrev is_space : ℕ → Bool
is_space c =
    (leb 9 c && leb c 13)
    || c == 32
    || c == 160
    || c == 5760
    || (leb 8192 c && leb c 8202)
    || c == 8232
    || c == 8233
    || c == 8239
    || c == 8287
    || c == 12288
    || c == 65279

trim_start : String → String
trim_start String.[] = ""
trim_start (String.◌∷◌ c s) = if is_space (code c) then trim_start s else String.◌∷◌ c s

trim_end : String → String
trim_end String.[] = ""
trim_end (String.◌∷◌ c s) =
    let t = trim_end s in if is_space (code c) && t === "" then "" else String.◌∷◌ c t

unfoldable pub trim : String → String
unfolding trim_start trim_end
trim s = trim_end (trim_start s)

-- The number that the leading digits spell.
digits_value : ℕ → String → ℕ
digits_value acc String.[] = acc
digits_value acc (String.◌∷◌ c s) =
    let more = digits_value (acc * 10 + (code c - 48)) s in
    if leb 48 (code c) && leb (code c) 57 then more else acc

-- `parseInt(s, 10)` of a trimmed text where it is positive, and 0 for `NaN` and a negative number.
unfoldable pub parse_int : String → ℕ
unfolding digits_value
parse_int String.[] = 0
parse_int (String.◌∷◌ c s) =
    if code c == b'+' then digits_value 0 s else digits_value 0 (String.◌∷◌ c s)
