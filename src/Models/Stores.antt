-- ===== src/Models/Stores.antt =====
-- Rows of src/admin_backend/models/store.py.
use cortex_cm.Base.{Option, Text}
use cortex_cm.Models.Columns.{Uuid, Timestamp, Decimal}
use cortex_cm.Models.TenantUsers.{ActorUserType}

pub data StoreStatus : Type 0 where
  opening active inactive closed : StoreStatus

pub data TaxTreatment : Type 0 where
  exclusive inclusive : TaxTreatment

pub record Store : Type 0 where
  pub id : Uuid
  pub tenant_id : Uuid
  pub org_node_id : Option Uuid
  pub name : Text
  pub store_code : Option Text
  pub country : Text
  pub timezone : Text
  pub address : Option Text
  pub latitude : Option Decimal
  pub longitude : Option Decimal
  pub currency : Text
  pub tax_treatment : TaxTreatment
  pub status : StoreStatus
  pub created_at : Timestamp
  pub created_by_user_id : Option Uuid
  pub created_by_user_type : Option ActorUserType
  pub updated_at : Timestamp
  pub updated_by_user_id : Option Uuid
  pub updated_by_user_type : Option ActorUserType
  pub closed_at : Option Timestamp
  pub closed_by_user_id : Option Uuid
  pub closed_by_user_type : Option ActorUserType
