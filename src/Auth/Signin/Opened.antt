-- ===== src/Auth/Signin/Opened.antt =====
-- The session that a sign-in opens.
use nestjs_template.Common.{
  ℕ, ◌≡◌, refl, false, Bool, Option, none, some, String, List, [], ◌∷◌, any, ok, arith, suc, ◌++◌,
  not, select, map, truthy_number, or_else, after_seconds, Bool-cases, inl, inr, if◌then◌else◌,
}
use nestjs_template.Redis.{RedisServer, RedisKey, session_key, SessionHash}
use nestjs_template.Client.{client_ip, client_agent, device_fingerprint}
use nestjs_template.Jwt.{get_refresh_ttl, sign_access_token, sign_refresh_token}
use nestjs_template.State.{
  World, Env, Request, User, JwtPayload, RefreshToken, LoginHistory, Mail, new_device_mail,
}
use nestjs_template.Hash.{create_hash}
use nestjs_template.Base.Providers.{create_provider}
use nestjs_template.Permissions.Lookup.{find_permission_keys, role_permissions_join}
use nestjs_template.Auth.Tokens.{create_refresh_token, is_stale}
use nestjs_template.Auth.History.{
  is_known_login, notify_new_device, create_auth_history, AuthHistoryPayload,
}
use nestjs_template.Auth.Signin.{Tokens, is_true, signin_payload, store_session, open_session}

any-false : {A : Type 0} (xs : List A) → any (λ x. false) xs ≡ false
any-false [] = refl
any-false (x ∷ xs) = any-false xs

module _ {r : RedisServer} (env : Env) (req : Request) where
  -- The row of a new refresh token.
  abbrev pub token_row : String → ℕ → Option ℕ → Option ℕ → World r → RefreshToken
  token_row token u s e w = record {
    id = w.next_id;
    token_hash = create_hash env.scrypt (env.random w.draws 16) token;
    user_id = u;
    family_id = some (device_fingerprint env req);
    expires_at = after_seconds w.now (or_else e env.refresh_token_expired_in);
    session_started_at = some (or_else s w.now);
    revoked_at = none;
    revoked_reason = none;
  }

  create_refresh_token_eq :
      (token : String) (u : ℕ) (s e : Option ℕ) (w : World r)
      → create_refresh_token env req token u s e w ≡ (
        ok (token_row token u s e w),
        record w {
          draws = suc w.draws;
          next_id = suc w.next_id;
          refresh_tokens = w.refresh_tokens ++ token_row token u s e w ∷ [];
        },
      )
  unfolding create_refresh_token create_provider
  create_refresh_token_eq token u s e w = ground (arith, any-false w.refresh_tokens)

  notify_new_device-ok :
      (u : ℕ) (family email : String) (w : World r)
      → (outbox : List Mail) × (notify_new_device env u family email w
          ≡ (ok tt, record w { outbox = outbox }))
  unfolding notify_new_device
  notify_new_device-ok u family email w =
      elim (Bool-cases (any (is_known_login w.now u family) w.login_histories)) [
        | inl e ↦ (w.outbox, rw e refl)
        | inr e ↦ ((if env.testing then w.outbox else new_device_mail email ∷ w.outbox), rw e refl)
      ]

  create_auth_history-ok :
      (d : AuthHistoryPayload) (w : World r)
      → (row : LoginHistory) × (create_auth_history env req d w ≡ (
        ok row,
        record w { next_id = suc w.next_id; login_histories = w.login_histories ++ row ∷ [] },
      ))
  unfolding create_auth_history create_provider
  create_auth_history-ok d w = (
    record {
      id = w.next_id;
      user_id = d.user_id;
      ip = client_ip req;
      user_agent = client_agent req;
      client_location = env.geo (client_ip req);
      family_id = d.family_id;
      session_id = d.session_id;
      logged_in_at = d.logged_in_at;
      logged_out_at = none;
      expired_at = d.expired_at;
    },
    ground (arith, any-false w.login_histories),
  )

  module _ (user : User) (session_id : String) (remember_me : Option Bool) (expires_in : Option ℕ)
      (w : World r) where
    abbrev pub role_keys : List String
    role_keys =
        if truthy_number user.role_id
        then map (λ p. p.key) (role_permissions_join user.role_id w.role_permissions w.permissions)
        else []

    abbrev pub new_payload : JwtPayload
    new_payload = signin_payload env req user role_keys session_id w.now remember_me

    -- The pair of tokens, and the hash that is stored for the session.
    abbrev pub new_tokens : Tokens
    new_tokens = record {
      access_token = sign_access_token env w.now new_payload;
      refresh_token = sign_refresh_token env w.now new_payload (is_true remember_me);
    }

    abbrev pub new_hash : SessionHash
    new_hash = record {
      access_token = sign_access_token env w.now new_payload;
      refresh_token = sign_refresh_token env w.now new_payload (is_true remember_me);
      ip = client_ip req;
      user_agent = client_agent req;
      created_at = w.now;
    }

    abbrev pub new_key : RedisKey
    new_key = session_key user.id (device_fingerprint env req) session_id

    abbrev with_token : World r
    with_token = record w {
      draws = suc w.draws;
      next_id = suc w.next_id;
      refresh_tokens =
          select (λ t. not (is_stale w.now user.id t))
            (w.refresh_tokens
              ++ token_row new_tokens.refresh_token user.id (some w.now) expires_in w ∷ []);
    }

    pub open_session-ok :
        (v : World r) × (open_session env req user session_id remember_me expires_in w
          ≡ (ok new_tokens, v))
        × (v.redis
            ≡ store_session r w.now new_key new_hash
                (get_refresh_ttl env (is_true remember_me))
                w.redis)
        × (v.users ≡ w.users)
    unfolding open_session find_permission_keys
    open_session-ok =
        let a =
          create_refresh_token_eq new_tokens.refresh_token user.id (some w.now) expires_in w in
        let (outbox, b) =
          notify_new_device-ok user.id (device_fingerprint env req) user.email with_token in
        let ttl = get_refresh_ttl env (is_true remember_me) in
        let stored : World r = record with_token {
          outbox = outbox;
          redis = store_session r w.now new_key new_hash ttl w.redis;
        } in
        let (row, c) =
          create_auth_history-ok
            (record {
              user_id = user.id;
              session_id = session_id;
              family_id = some (device_fingerprint env req);
              logged_in_at = some w.now;
              expired_at = some (after_seconds w.now ttl);
            })
            stored in
        (
          record stored {
            next_id = suc stored.next_id;
            login_histories = w.login_histories ++ row ∷ [];
          },
          ground (arith, a, b, c),
          refl,
          refl,
        )
