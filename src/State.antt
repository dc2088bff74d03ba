-- ===== src/State.antt =====
-- The state that the providers share: the clock, the database tables, the Redis store, the mail
-- that was sent and the user activity log. A request runs at one instant, `now`. `draws` counts the
-- calls of `randomBytes`, `next_id` stands for the sequences of the tables' keys.
mod Entities
mod Outside
pub mod Tables
pub use Entities.*
pub use Outside.*
use nestjs_template.Common.{
  ℕ, ◌+◌, suc, String, Bool, true, false, Option, none, some, List, [], ◌∷◌, ◌++◌, Action, ok,
  if◌then◌else◌,
}
use nestjs_template.Redis.{RedisServer}

pub data LogAction : Type 0 where
  signup_success signup_failed signin_success signin_failed logout_success logout_all : LogAction
  verify_email_success verify_email_failed resend_verification_success : LogAction
  forgot_password_success reset_password_success reset_password_failed : LogAction
  change_password_success change_password_failed session_revoked : LogAction
  google_signin_success google_signin_failed : LogAction
  user_created profile_updated profile_deleted profile_restored status_toggled : LogAction
  role_created role_updated role_deleted role_restored admin_permissions_synced : LogAction
  permission_created permission_updated permission_deleted : LogAction
  role_permissions_assigned role_permission_removed role_permissions_removed : LogAction
  permissions_bulk_deleted : LogAction

-- An entry of the user activity log; the metadata is left out.
pub record LogEntry : Type 0 where
  pub action : LogAction
  pub user_id : Option ℕ

-- A mail that was handed to the provider; the code that a link carries is part of it.
pub data Mail : Type 0 where
  verify_email_mail : String → String → Mail
  resend_verification_mail : String → String → Mail
  forgot_password_mail : String → String → Mail
  reset_password_mail : String → Mail
  change_password_mail : String → Mail
  new_device_mail : String → Mail
  create_user_mail : String → String → Mail

pub record World (r : RedisServer) : Type 0 where
  pub now : ℕ
  pub draws : ℕ
  pub next_id : ℕ
  pub users : List User
  pub refresh_tokens : List RefreshToken
  pub login_histories : List LoginHistory
  pub password_histories : List PasswordHistory
  pub roles : List Role
  pub permissions : List Permission
  pub role_permissions : List RolePermission
  pub redis : r.Store
  pub outbox : List Mail
  pub activity : List LogEntry

module _ {r : RedisServer} where
  -- `activityLog.logUser`
  abbrev pub log_user : LogAction → Option ℕ → Action (World r) (Unit {0})
  log_user a u w = (ok tt, record w { activity = record { action = a; user_id = u } ∷ w.activity })

  -- `MailService.sendEmail`: nothing is sent in the testing environment.
  abbrev pub send_email : Env → Mail → Action (World r) (Unit {0})
  send_email env m w = (ok tt, record w { outbox = if env.testing then w.outbox else m ∷ w.outbox })

  -- `HashService.generateToken`, and the salt of `createHash`
  abbrev pub generate_token : Env → ℕ → Action (World r) String
  generate_token env k w = (ok (env.random w.draws k), record w { draws = suc w.draws })

  -- The next key of a table.
  abbrev pub take_id : Action (World r) ℕ
  take_id w = (ok w.next_id, record w { next_id = suc w.next_id })

  abbrev pub on_redis : (r.Store → r.Store) → Action (World r) (Unit {0})
  on_redis f w = (ok tt, record w { redis = f w.redis })

  -- The same state at another time.
  abbrev pub wait_until : ℕ → World r → World r
  wait_until t w = record w { now = t }
