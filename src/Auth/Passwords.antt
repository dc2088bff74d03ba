-- ===== src/Auth/Passwords.antt =====
-- The password history: check-password-history.provider.ts and save-password-history.provider.ts.
-- Rows with one `created_at` are ordered with the later one first.
pub mod Recent
use nestjs_template.Common.{
  ℕ, String, Bool, not, ◌&&◌, List, [], ◌∷◌, ◌++◌, any, select, take, ltb, ◌==◌, if◌then◌else◌,
  Action, pure, gets, throw_if, ◌>>=◌, ◌>>◌, http, password_previously_used,
}
use nestjs_template.Redis.{RedisServer}
use nestjs_template.Hash.{create_hash, verify}
use nestjs_template.State.{World, Env, PasswordHistory, take_id, generate_token}
use nestjs_template.State.Tables.{password_histories}
use nestjs_template.Base.Repository.{set_rows}

-- src/modules/auth/constants/auth.constant.ts
abbrev pub password_history_limit : ℕ
password_history_limit = 5

abbrev pub newer : PasswordHistory → PasswordHistory → Bool
newer a b = ltb b.created_at a.created_at

unfoldable pub insert_newest : PasswordHistory → List PasswordHistory → List PasswordHistory
insert_newest a [] = a ∷ []
insert_newest a (b ∷ rest) = if newer a b then a ∷ b ∷ rest else b ∷ insert_newest a rest

-- `ORDER BY created_at DESC`
unfoldable pub by_newest : List PasswordHistory → List PasswordHistory
by_newest [] = []
by_newest (a ∷ rest) = insert_newest a (by_newest rest)

-- `WHERE user_id = $1 ORDER BY created_at DESC LIMIT n`
abbrev pub newest : ℕ → ℕ → List PasswordHistory → List PasswordHistory
newest n u rows = take n (by_newest (select (λ h. h.user_id == u) rows))

abbrev pub listed : List PasswordHistory → PasswordHistory → Bool
listed rows h = any (λ k. k.id == h.id) rows

-- The `DELETE` statement of `SavePasswordHistoryProvider`.
abbrev pub trim_history : ℕ → List PasswordHistory → List PasswordHistory
trim_history u rows =
    select (λ h. not (h.user_id == u && not (listed (newest password_history_limit u rows) h))) rows

module _ {r : RedisServer} where
  -- `SavePasswordHistoryProvider.execute`
  unfoldable pub save_password_history : ℕ → String → Action (World r) (Unit {0})
  save_password_history u hash = do
    id ← take_id
    now ← gets (λ w. w.now)
    set_rows password_histories (λ rows.
        rows ++ record { id = id; user_id = u; password_hash = hash; created_at = now } ∷ [])
    set_rows password_histories (trim_history u)

  module _ (env : Env) where
    -- The salt is drawn, then the hash is made: `HashService.createHash`.
    abbrev pub hash_password : String → Action (World r) String
    hash_password password = do
      salt ← generate_token env 16
      pure (create_hash env.scrypt salt password)

    -- `CheckPasswordHistoryProvider.execute`
    unfoldable pub check_password_history : ℕ → String → Action (World r) (Unit {0})
    check_password_history u password = do
      rows ← gets (λ w. newest 5 u w.password_histories)
      throw_if (any (λ h. verify env.scrypt h.password_hash password) rows)
          (http 422 password_previously_used)
