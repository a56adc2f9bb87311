-- ===== src/Models/PlatformUsers.antt =====
-- Rows of src/admin_backend/models/platform_user.py.
use cortex_cm.Base.{Option, Text}
use cortex_cm.Models.Columns.{Uuid, Timestamp}

pub data PlatformUserStatus : Type 0 where
  invited active suspended : PlatformUserStatus

pub record PlatformUser : Type 0 where
  pub id : Uuid
  pub auth0_sub : Option Text
  pub email : Text
  pub full_name : Text
  pub status : PlatformUserStatus
  pub invited_at : Option Timestamp
  pub invitation_accepted_at : Option Timestamp
  pub suspended_at : Option Timestamp
  pub suspended_by_user_id : Option Uuid
  pub created_at : Timestamp
  pub created_by_user_id : Option Uuid
  pub updated_at : Timestamp
  pub updated_by_user_id : Option Uuid
