-- ===== src/Examples/Refresh.antt =====
-- Examples for refreshes, password changes and the rate limit.
use nestjs_template.Common.{
  ℕ, String, ◌≡◌, ◌↔◌, ◌≤◌, refl, true, false, some, none, [], ◌∷◌, ok, err, http, arith, All,
  eq_iff, invalid_refresh_token, password_previously_used, ◌+◌, select, map, not,
}
use nestjs_template.Redis.{session_key}
use nestjs_template.Redis.Memory.{memory, memory_laws}
use nestjs_template.Hash.{verify, split_last, create_hash}
use nestjs_template.Hibp.{is_breached}
use nestjs_template.State.{World, Env, RefreshToken, LoginHistory, malformed}
use nestjs_template.Auth.Tokens.{is_open, same_family, first_verified}
use nestjs_template.Auth.Passwords.{
  check_password_history, save_password_history, by_newest, insert_newest,
}
use nestjs_template.Auth.Passwords.Recent.{check-save_password_history}
use nestjs_template.Auth.Refresh.{check_refresh, refresh_tokens}
use nestjs_template.Auth.Refresh.Checks.{IsRefreshable, check_refresh_iff}
use nestjs_template.Auth.Refresh.Theft.{
  refresh_forged, refresh_replayed, logged_out, is_login_of, IsReplayed,
}
use nestjs_template.Auth.Account.{change_password}
use nestjs_template.Auth.Account.Replaced.{IsChangeable, IsReplaced, change_password-IsReplaced}
use nestjs_template.RateLimit.{check_limit}
use nestjs_template.RateLimit.Window.{window_limit, answer, tries, try_at}
use nestjs_template.Examples.{an_env, a_request, a_world, a_payload, ann, ann_payload}

-- The row of Ann's refresh token.
abbrev a_token : RefreshToken
a_token = record {
  id = 1;
  token_hash = "signed00:00";
  user_id = 7;
  family_id = some "family";
  expires_at = 5000;
  session_started_at = some 0;
  revoked_at = none;
  revoked_reason = none;
}

abbrev online : World memory
online = record a_world { refresh_tokens = a_token ∷ [] }

check_refresh_iff_example :
    (check_refresh an_env a_request "signed" online ≡ (ok (a_payload, ann, a_token), online))
    ↔ IsRefreshable an_env "signed" online a_payload ann a_token
check_refresh_iff_example = check_refresh_iff an_env a_request "signed" online a_payload ann a_token

-- A forger's library decodes whatever it is given.
abbrev forged_env : Env
forged_env = record an_env {
  decode = λ token. some a_payload;
  verify_jwt = λ s now token. malformed;
}

-- Two open logins of Ann, of which the forged token names one.
abbrev a_login : ℕ → String → LoginHistory
a_login id session = record {
  id = id;
  user_id = 7;
  ip = "10.0.0.1";
  user_agent = "agent";
  client_location = none;
  family_id = some "family";
  session_id = session;
  logged_in_at = some 900;
  logged_out_at = none;
  expired_at = none;
}

abbrev logged_in : World memory
logged_in = record a_world { login_histories = a_login 1 "session" ∷ a_login 2 "another" ∷ [] }

refresh_forged_example :
    let out = refresh_tokens forged_env a_request "forged" logged_in in
    (out.0 ≡ err (http 401 invalid_refresh_token))
    × (select (is_login_of 7 "session") out.1.login_histories
        ≡ map
            (logged_out logged_in.now)
            (select (is_login_of 7 "session") logged_in.login_histories))
    × (select (λ h. not (is_login_of 7 "session" h)) out.1.login_histories
        ≡ select (λ h. not (is_login_of 7 "session" h)) logged_in.login_histories)
    × (out.1.refresh_tokens ≡ logged_in.refresh_tokens)
    × (out.1.redis ≡ logged_in.redis)
refresh_forged_example =
    refresh_forged forged_env a_request "forged" logged_in a_payload "session" refl refl refl refl
      refl refl

ann-IsReplayed : IsReplayed an_env a_request "signed" a_world a_payload ann "family"
unfolding first_verified
ann-IsReplayed = record {
  given = refl;
  signed = refl;
  free = refl;
  known = refl;
  present = refl;
  active = refl;
  unknown = refl;
  family = refl;
  named = refl;
}

refresh_replayed_example :
    let out = refresh_tokens an_env a_request "signed" a_world in
    (out.0 ≡ err (http 401 invalid_refresh_token))
    × ((t : ℕ) (s : String) → 1000 ≤ t → memory.get t (session_key 7 "family" s) out.1.redis ≡ none)
    × All
        (λ x. x.user_id ≡ 7 → same_family x.family_id "family" ≡ true → is_open x ≡ false)
        out.1.refresh_tokens
refresh_replayed_example =
    refresh_replayed an_env a_request "signed" a_world memory_laws a_payload ann "family"
      ann-IsReplayed

check-save_password_history_example :
    (check_password_history an_env 7 "secret"
      (save_password_history 7 (create_hash an_env.scrypt "00" "secret") a_world).1).0
    ≡ err (http 422 password_previously_used)
check-save_password_history_example =
    check-save_password_history an_env a_world 7 "00" "secret" tt (ground arith, (ground arith, tt))
      (ground (arith, eq_iff "secret00" ""))

ann-IsChangeable : IsChangeable an_env "secret" "better" a_world ann
unfolding verify split_last is_breached by_newest insert_newest
ann-IsChangeable = record {
  known = refl;
  present = refl;
  set = refl;
  fits = refl;
  unused = refl;
  safe = refl;
}

change_password-IsReplaced_example :
    ((change_password an_env "secret" "better" ann_payload a_world).0 ≡ ok tt)
    × IsReplaced an_env "better" ann a_world 2000
        (change_password an_env "secret" "better" ann_payload a_world).1
change_password-IsReplaced_example =
    change_password-IsReplaced memory_laws an_env "secret" "better" a_world ann ann_payload 2000
      refl ann-IsChangeable (omega arith)

-- Three attempts in a minute are allowed; the fourth is refused.
window_limit_example :
    let first = check_limit "10.0.0.1" "signin" 3 60000 a_world in
    let before = tries "10.0.0.1" "signin" 3 60000 (1000 ∷ 1000 ∷ []) first.1 in
    (first.0 ≡ answer 3 1)
    × ((try_at "10.0.0.1" "signin" 3 60000 (before.now + 1000) before).0 ≡ answer 3 4)
    × ((try_at "10.0.0.1" "signin" 3 60000 70000 before).0 ≡ answer 3 1)
window_limit_example =
    window_limit "10.0.0.1" "signin" 3 60000 memory_laws a_world (1000 ∷ 1000 ∷ []) 1000 70000 refl
      (omega arith) (omega arith)
