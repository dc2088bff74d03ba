-- ===== src/Hibp.antt =====
-- src/shared/hibp/hibp.service.ts: the check of a password against the breach service. SHA-1 and the
-- answer of the HTTP service (`none` where the call fails or is empty) come from `Env`.
pub mod Text
use nestjs_template.Common.{
  ℕ, String, Bool, true, false, ◌&&◌, Option, none, some, List, [], ◌∷◌, any, ltb, ◌===◌,
  if◌then◌else◌, Action, pure, throw_if, http, password_breached,
}
use nestjs_template.State.{Env}
use nestjs_template.Client.{take_text}
use nestjs_template.Hibp.Text.{drop_text, split_lines, split_colon, trim, parse_int}

-- One round of the loop: the line lists the suffix with a positive count.
abbrev pub line_breached : String → String → Bool
line_breached suffix line = elim (split_colon line) [
  | none ↦ false
  | some (head, rest) ↦ trim head === suffix && ltb 0 (parse_int (trim rest))
]

module _ (env : Env) where
  -- The answer for the hash's first five characters, searched for the others.
  unfoldable pub is_breached : String → Bool
  is_breached password =
      let hash = env.sha1 password in
      elim (env.pwned_range (take_text 5 hash)) [
        | none ↦ false
        | some text ↦
            if text === "" then false else any (line_breached (drop_text 5 hash)) (split_lines text)
      ]

  -- `HibpService.checkPassword`
  abbrev pub check_password : {S : Type 0} → String → Action S (Unit {0})
  check_password password =
      throw_if (env.hibp_enabled && is_breached password) (http 422 password_breached)
