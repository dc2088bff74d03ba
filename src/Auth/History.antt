-- ===== src/Auth/History.antt =====
-- The login history and the new-device mail: create-auth-history, update-login-history-expiry and
-- new-device-notification under src/modules/auth/providers.
use nestjs_template.Common.{
  ℕ, ◌+◌, ◌*◌, String, Bool, true, false, not, ◌&&◌, ◌||◌, Option, none, some, or_else, is_some,
  List, ltb, truthy_option, ◌==◌, ◌===◌, Action, gets, when, ◌>>=◌, auth_not_found,
}
use nestjs_template.Redis.{RedisServer}
use nestjs_template.State.{World, Env, Request, LoginHistory, send_email, new_device_mail}
use nestjs_template.State.Tables.{login_histories}
use nestjs_template.Client.{client_ip, client_agent}
use nestjs_template.Base.Repository.{update_many, exists}
use nestjs_template.Base.Providers.{skip, create_provider, update_many_provider}

-- src/modules/auth/interfaces/auth-history-payload.interface.ts
pub record AuthHistoryPayload : Type 0 where
  pub user_id : ℕ
  pub session_id : String
  pub family_id : Option String
  pub logged_in_at : Option ℕ
  pub expired_at : Option ℕ

-- `loggedOutAt: IsNull()`
abbrev pub is_open_login : LoginHistory → Bool
is_open_login h = not (is_some h.logged_out_at)

abbrev pub family_is : Option String → String → Bool
family_is none f = false
family_is (some g) f = g === f

-- The condition of `logout`: a session id that is falsy is left out.
abbrev pub closes : ℕ → Option String → LoginHistory → Bool
closes u session h =
    h.user_id == u
    && (not (truthy_option session) || h.session_id === or_else session "")
    && is_open_login h

-- A condition on `sessionId`; TypeORM passes over an `undefined` one.
abbrev pub in_session : Option String → LoginHistory → Bool
in_session none h = true
in_session (some s) h = h.session_id === s

abbrev pub close_login : ℕ → LoginHistory → LoginHistory
close_login now h = record h { logged_out_at = some now }

-- 90 days in milliseconds (src/modules/auth/constants/auth.constant.ts).
abbrev pub known_device_window : ℕ
known_device_window = 90 * 24 * 60 * 60 * 1000

-- `loggedInAt: MoreThan(windowStart)`, with the window on the other side.
abbrev pub is_recent : ℕ → Option ℕ → Bool
is_recent now none = false
is_recent now (some t) = ltb now (t + known_device_window)

abbrev pub is_known_login : ℕ → ℕ → String → LoginHistory → Bool
is_known_login now u family h =
    h.user_id == u && family_is h.family_id family && is_recent now h.logged_in_at

module _ {r : RedisServer} where
  -- `CreateAuthHistoryProvider.logout`
  abbrev pub logout_history : ℕ → Option String → Action (World r) (List LoginHistory)
  logout_history u session w = update_many login_histories (closes u session) (close_login w.now) w

  -- `CreateAuthHistoryProvider.logoutByFamily`
  abbrev pub logout_by_family : ℕ → String → Action (World r) (List LoginHistory)
  logout_by_family u family w =
      update_many login_histories
        (λ h. h.user_id == u && family_is h.family_id family && is_open_login h) (close_login w.now)
        w

  -- `UpdateLoginHistoryExpiryProvider.execute`
  unfoldable pub update_login_history_expiry :
      ℕ → Option String → ℕ → Action (World r) (List LoginHistory)
  unfolding update_many_provider
  update_login_history_expiry u session expired_at =
      update_many_provider login_histories auth_not_found (λ h. false)
        (λ h. record h { expired_at = some expired_at })
        (λ h. h.user_id == u && in_session session h)

  module _ (env : Env) where
    -- `CreateAuthHistoryProvider.execute`
    unfoldable pub create_auth_history :
        Request → AuthHistoryPayload → Action (World r) LoginHistory
    unfolding create_provider
    create_auth_history req =
        create_provider login_histories auth_not_found skip
          (λ d id. record {
            id = id;
            user_id = d.user_id;
            ip = client_ip req;
            user_agent = client_agent req;
            client_location = env.geo (client_ip req);
            family_id = d.family_id;
            session_id = d.session_id;
            logged_in_at = d.logged_in_at;
            logged_out_at = none;
            expired_at = d.expired_at;
          })
          skip

    -- `NewDeviceNotificationProvider.execute`
    unfoldable pub notify_new_device : ℕ → String → String → Action (World r) (Unit {0})
    notify_new_device u family email = do
      now ← gets (λ w. w.now)
      known ← exists login_histories (is_known_login now u family)
      when (not known) (send_email env (new_device_mail email))
