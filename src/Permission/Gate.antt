-- ===== src/Permission/Gate.antt =====
-- `require` of src/admin_backend/auth/permissions.py: the gate in front of an endpoint. FastAPI
-- resolves the anchor before the body of the gate runs.
use cortex_cm.Base.{
  ◌≡◌, ◌⊎◌, ◌↔◌, refl, inl, inr, Bool, true, false, not, Option, none, some, arith, Text,
}
use cortex_cm.Result.{Result, ok, raise, ◌>>=◌, ◌>>◌, raise_if, >>=-eq-ok}
use cortex_cm.Errors.{Error, client_error, permission_denied, platform_audience_required}
use cortex_cm.Models.TenantUsers.{ActorUserType, platform, tenant}
use cortex_cm.Auth.Context.{AuthContext}
use cortex_cm.Database.Tables.{Db}
use cortex_cm.Database.Session.{Session}
use cortex_cm.Permission.Resolve.{Request, has_permission}

-- `audience is not None and auth.user_type != audience`
abbrev pub is_wrong_audience : Option ActorUserType → ActorUserType → Bool
is_wrong_audience none caller = false
is_wrong_audience (some platform) platform = false
is_wrong_audience (some tenant) tenant = false
is_wrong_audience (some _) _ = true

-- The anchor dependency of a gate: none, or the outcome of looking the target up.
abbrev pub resolve_anchor : Option (Result Text) → Result (Option Text)
resolve_anchor none = ok none
resolve_anchor (some (ok path)) = ok (some path)
resolve_anchor (some (raise e)) = raise e

module _ (s : Session) (db : Db) (auth : AuthContext) where
  unfoldable pub gate : Request → Option ActorUserType → Option (Result Text) → Result (Unit {0})
  gate q audience anchor = do
    target ← resolve_anchor anchor
    raise_if (is_wrong_audience audience auth.user_type) (client_error platform_audience_required)
    raise_if (not (has_permission s db auth q target).0) (client_error permission_denied)

  -- The gate opens exactly if the anchor lookup, where there is one, has succeeded, the audience is
  -- right and the permission is held at the anchor.
  pub gate_iff :
      (q : Request) (audience : Option ActorUserType) (anchor : Option (Result Text))
      → (gate q audience anchor ≡ ok tt) ↔ (
          (target : Option Text) × (resolve_anchor anchor ≡ ok target)
          × (is_wrong_audience audience auth.user_type ≡ false)
          × ((has_permission s db auth q target).0 ≡ true))
  unfolding gate
  gate_iff q audience anchor = (
    λ e.
        let (target, r, e') = >>=-eq-ok (resolve_anchor anchor) _ e in
        (target, r, ground arith, ground arith),
    λ (target, r, w, h). rw (r, w, h) refl,
  )

  -- A gate that refuses does so with one of these: the error of the anchor lookup; else, for a
  -- wrong audience, `PlatformAudienceRequiredError`; else, without the permission at the anchor,
  -- `PermissionDeniedError`.
  pub gate_refusals :
      (q : Request) (audience : Option ActorUserType) (anchor : Option (Result Text)) (e : Error)
      → gate q audience anchor ≡ raise e
      → (anchor ≡ some (raise e))
        ⊎ ((target : Option Text) × (resolve_anchor anchor ≡ ok target)
            × (((is_wrong_audience audience auth.user_type ≡ true)
                  × (e ≡ client_error platform_audience_required))
                ⊎ ((is_wrong_audience audience auth.user_type ≡ false)
                    × ((has_permission s db auth q target).0 ≡ false)
                    × (e ≡ client_error permission_denied))))
  unfolding gate
  gate_refusals q audience none e h = inr (none, refl, ground arith)
  gate_refusals q audience (some (ok p)) e h = inr (some p, refl, ground arith)
  gate_refusals q audience (some (raise x)) e h = inl (cc)
