-- ===== src/Models/TenantUsers.antt =====
-- Rows of src/admin_backend/models/tenant_user.py.
use cortex_cm.Base.{Option, Text}
use cortex_cm.Models.Columns.{Uuid, Timestamp}

pub data TenantUserStatus : Type 0 where
  invited active suspended : TenantUserStatus

pub data ActorUserType : Type 0 where
  platform tenant : ActorUserType

pub record TenantUser : Type 0 where
  pub id : Uuid
  pub tenant_id : Uuid
  pub auth0_sub : Option Text
  pub email : Text
  pub full_name : Text
  pub status : TenantUserStatus
  pub invited_at : Option Timestamp
  pub invitation_accepted_at : Option Timestamp
  pub suspended_at : Option Timestamp
  pub suspended_by_user_id : Option Uuid
  pub suspended_by_user_type : Option ActorUserType
  pub created_at : Timestamp
  pub created_by_user_id : Option Uuid
  pub created_by_user_type : Option ActorUserType
  pub updated_at : Timestamp
  pub updated_by_user_id : Option Uuid
  pub updated_by_user_type : Option ActorUserType
