-- ===== src/Auth/Tokens.antt =====
-- The refresh-token table: src/modules/auth/providers/{create,verify,revoke,update,cleanup}-refresh-
-- token.provider.ts. The raw statements are the SQL of the source.
pub mod Clean
use nestjs_template.Common.{
  ℕ, ◌+◌, String, Bool, true, false, not, ◌&&◌, ◌||◌, Option, none, some, or_else, is_some, List,
  [], ◌∷◌, leb, truthy, truthy_number, ◌==◌, ◌===◌, if◌then◌else◌, select, update_where, Action,
  pure, gets, modify, ◌>>=◌, ◌>>◌, after_seconds, auth_not_found,
}
use nestjs_template.Redis.{RedisServer}
use nestjs_template.Hash.{create_hash, verify}
use nestjs_template.State.{
  World, Env, Request, RefreshToken, Reason, refresh_replaced, generate_token,
}
use nestjs_template.State.Tables.{refresh_tokens}
use nestjs_template.Client.{device_fingerprint}
use nestjs_template.Base.Repository.{create, find_many, set_rows}
use nestjs_template.Base.Providers.{skip, create_provider, update_provider}

-- `revoked_at IS NULL`
abbrev pub is_open : RefreshToken → Bool
is_open t = not (is_some t.revoked_at)

abbrev pub of_user : ℕ → RefreshToken → Bool
of_user u t = t.user_id == u

-- `family_id = $n`, never true of `NULL`
abbrev pub same_family : Option String → String → Bool
same_family none f = false
same_family (some g) f = g === f

-- The conditions of `RevokeRefreshTokenProvider`: a user or family that is falsy adds none.
abbrev pub revocable : Option ℕ → Option String → RefreshToken → Bool
revocable u f t =
    is_open t
    && (not (truthy_number (or_else u 0)) || t.user_id == or_else u 0)
    && (not (truthy (or_else f "")) || same_family t.family_id (or_else f ""))

abbrev pub mark_revoked : ℕ → Reason → RefreshToken → RefreshToken
mark_revoked now reason t = record t { revoked_at = some now; revoked_reason = some reason }

-- The condition of the `DELETE` in `CleanupRefreshTokenProvider`.
abbrev pub is_stale : ℕ → ℕ → RefreshToken → Bool
is_stale now u t = t.user_id == u && (is_some t.revoked_at || leb t.expires_at now)

-- The loop of `VerifyRefreshTokenProvider`: the first row whose hash verifies.
unfoldable pub first_verified :
    (String → String → Bool) → String → List RefreshToken → Option RefreshToken
first_verified check token [] = none
first_verified check token (t ∷ ts) =
    if truthy t.token_hash && check t.token_hash token
    then some t
    else first_verified check token ts

module _ {r : RedisServer} where
  -- `RevokeRefreshTokenProvider.execute`
  abbrev pub revoke_refresh_tokens : Option ℕ → Option String → Reason → Action (World r) (Unit {0})
  revoke_refresh_tokens u f reason w =
      set_rows refresh_tokens (update_where (revocable u f) (mark_revoked w.now reason)) w

  -- `CleanupRefreshTokenProvider.execute`
  abbrev pub cleanup_refresh_tokens : ℕ → Action (World r) (Unit {0})
  cleanup_refresh_tokens u w = set_rows refresh_tokens (select (λ t. not (is_stale w.now u t))) w

  -- `UpdateRefreshTokenProvider.execute` with the id and the revocation that the code passes.
  unfoldable pub update_refresh_token : ℕ → Reason → Action (World r) RefreshToken
  unfolding update_provider
  update_refresh_token id reason w =
      update_provider refresh_tokens auth_not_found (λ t. false) (λ t _. skip t)
        (λ why. mark_revoked w.now why) (λ t _. skip t) (λ t. t.id == id) reason w

  module _ (env : Env) where
    -- `VerifyRefreshTokenProvider.execute`
    abbrev pub verify_refresh_token : String → ℕ → Action (World r) (Option RefreshToken)
    verify_refresh_token token u = do
      tokens ← find_many refresh_tokens (λ t. of_user u t && is_open t)
      pure (first_verified (verify env.scrypt) token tokens)

    -- `CreateRefreshTokenProvider`: the payload's hash, expiry and device.
    unfoldable pub create_refresh_token :
        Request → String → ℕ → Option ℕ → Option ℕ → Action (World r) RefreshToken
    unfolding create_provider
    create_refresh_token req token u session_started_at expires_in = do
      salt ← generate_token env 16
      now ← gets (λ w. w.now)
      create_provider refresh_tokens auth_not_found skip
          (λ (d : Unit {0}) id. record {
            id = id;
            token_hash = create_hash env.scrypt salt token;
            user_id = u;
            family_id = some (device_fingerprint env req);
            expires_at = after_seconds now (or_else expires_in env.refresh_token_expired_in);
            session_started_at = some (or_else session_started_at now);
            revoked_at = none;
            revoked_reason = none;
          })
          skip tt
