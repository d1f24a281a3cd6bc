-- ===== src/Models/Identity.antt =====
-- app/db/models/identity.py
use datacraft_backend.Prelude.{ℕ, Bool, true, false, Option}
use datacraft_backend.Core.Text.{Text}

-- the CHECK constraint `ck_users_status`
pub data UserStatus : Type 0 where
  active inactive locked : UserStatus

pub record User : Type 0 where
  pub email : Text
  pub username : Option Text
  pub full_name : Option Text
  pub password_hash : Text
  pub status : UserStatus
  pub require_password_reset : Bool
  pub last_login_at : Option ℕ
  pub last_password_changed_at : Option ℕ
  pub created_by : Option ℕ
  pub updated_at : Option ℕ

pub record UserRole : Type 0 where
  pub user_id : ℕ
  pub role_id : ℕ
  pub assigned_by : Option ℕ

abbrev pub is_locked : UserStatus → Bool
is_locked UserStatus.locked = true
is_locked _ = false

abbrev pub is_user_active : UserStatus → Bool
is_user_active UserStatus.active = true
is_user_active _ = false
