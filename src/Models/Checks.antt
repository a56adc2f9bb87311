-- ===== src/Models/Checks.antt =====
-- CHECK constraints of the tables of stores and nodes
-- (migrations/versions/ad8afd429581_initial_schema.py) on the columns that change with the status.
use cortex_cm.Base.{Bool, true, false, Option, none, some}
use cortex_cm.Models.Columns.{Uuid, Timestamp}
use cortex_cm.Models.TenantUsers.{ActorUserType}
use cortex_cm.Models.Stores.{Store, StoreStatus, closed}
use cortex_cm.Models.OrgNodes.{OrgNode, OrgNodeStatus, archived}

-- The status that goes with three columns, and all of them set, or another one and none set.
abbrev pub triplet_matches : Bool → Option Timestamp → Option Uuid → Option ActorUserType → Bool
triplet_matches true (some t) (some u) (some ty) = true
triplet_matches false none none none = true
triplet_matches _ _ _ _ = false

abbrev is_closed : StoreStatus → Bool
is_closed closed = true
is_closed _ = false

abbrev is_archived : OrgNodeStatus → Bool
is_archived archived = true
is_archived _ = false

-- `ck_stores_closed_consistency`
unfoldable pub closed_consistent : Store → Bool
closed_consistent st =
    triplet_matches (is_closed st.status) st.closed_at st.closed_by_user_id st.closed_by_user_type

-- `ck_org_nodes_archived_consistency`
unfoldable pub archived_consistent : OrgNode → Bool
archived_consistent n =
    triplet_matches (is_archived n.status) n.archived_at n.archived_by_user_id
      n.archived_by_user_type
