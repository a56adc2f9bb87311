-- ===== src/Models/Tenants.antt =====
-- Rows of src/admin_backend/models/tenant.py.
use cortex_cm.Base.{ℕ, Option, Text}
use cortex_cm.Models.Columns.{Uuid, Timestamp, Date, Decimal}

pub data TenantStatus : Type 0 where
  onboarding trial active suspended terminated : TenantStatus

pub data TenantTier : Type 0 where
  enterprise mid_market smb single_store : TenantTier

pub data TenantIndustry : Type 0 where
  convenience_fuel convenience grocery hypermart speciality_grocery organic_grocery : TenantIndustry

pub data TenantRegion : Type 0 where
  us eu : TenantRegion

pub record Tenant : Type 0 where
  pub id : Uuid
  pub name : Text
  pub display_code : Option Text
  pub country : Option Text
  pub region : TenantRegion
  pub tier : Option TenantTier
  pub industry : Option TenantIndustry
  pub monthly_revenue_usd : Option Decimal
  pub monthly_revenue_as_of_date : Option Date
  pub number_of_stores : Option ℕ
  pub number_of_stores_as_of_date : Option Date
  pub primary_contact_name : Option Text
  pub contact_email : Option Text
  pub status : TenantStatus
  pub created_at : Timestamp
  pub created_by_user_id : Option Uuid
  pub updated_at : Timestamp
  pub updated_by_user_id : Option Uuid
  pub suspended_at : Option Timestamp
  pub suspended_by_user_id : Option Uuid
  pub terminated_at : Option Timestamp
  pub terminated_by_user_id : Option Uuid
