-- ===== src/State/Entities.antt =====
-- The rows of the tables: src/modules/{users,auth,roles,permissions}/entities. Times are
-- milliseconds. `created_at` and `updated_at` are kept where the code reads them.
use nestjs_template.Common.{ℕ, String, Bool, Option}

pub record User : Type 0 where
  pub id : ℕ
  pub role_id : ℕ
  pub google_id : Option String
  pub email : String
  pub password : Option String
  pub name : String
  pub avatar_url : Option String
  pub email_verified : Bool
  pub email_verified_at : Option ℕ
  pub failed_attempts : ℕ
  pub locked_until : Option ℕ
  pub is_active : Bool
  pub is_deleted : Bool
  pub deleted_at : Option ℕ
  pub deleted_by : Option ℕ

-- The literals that the code writes into `revoked_reason`.
pub data Reason : Type 0 where
  signin_replaced theft_detected refresh_replaced signout signout_all session_revoked : Reason
  password_reset password_changed : Reason

pub record RefreshToken : Type 0 where
  pub id : ℕ
  pub token_hash : String
  pub user_id : ℕ
  pub family_id : Option String
  pub expires_at : ℕ
  pub session_started_at : Option ℕ
  pub revoked_at : Option ℕ
  pub revoked_reason : Option Reason

pub record LoginHistory : Type 0 where
  pub id : ℕ
  pub user_id : ℕ
  pub ip : String
  pub user_agent : String
  pub client_location : Option String
  pub family_id : Option String
  pub session_id : String
  pub logged_in_at : Option ℕ
  pub logged_out_at : Option ℕ
  pub expired_at : Option ℕ

pub record PasswordHistory : Type 0 where
  pub id : ℕ
  pub user_id : ℕ
  pub password_hash : String
  pub created_at : ℕ

pub record Role : Type 0 where
  pub id : ℕ
  pub name : String
  pub description : Option String
  pub created_by : Option ℕ
  pub updated_by : Option ℕ
  pub is_deleted : Bool
  pub deleted_at : Option ℕ
  pub deleted_by : Option ℕ

pub record Permission : Type 0 where
  pub id : ℕ
  pub name : String
  pub key : String
  pub description : Option String
  pub created_by : Option ℕ
  pub updated_by : Option ℕ

pub record RolePermission : Type 0 where
  pub id : ℕ
  pub role_id : ℕ
  pub permission_id : ℕ
