-- ===== src/Requests/Review.antt =====
-- frontend/src/pages/AccessRequestsPage.tsx: the list of requests, and what can be done with them.
-- The list is the answer of `useAccessRequests`; texts and styles are left out.
use clustervision.Base.{
  String, ◌≡◌, Bool, true, false, not, ◌&&◌, ◌||◌, List, [], ◌∷◌, Option, none, some, ◌==◌, is_some,
  if◌then◌else◌,
}
use clustervision.Types.{
  AccessRequestStatus, pending, approved, AccessRequest, AccessRequestExportQuery,
}
use clustervision.Auth.{RoleName, approver, admin, instance_scope, AuthStore, AuthUser, role_for}

pub data Verdict : Type 0 where
  approve revoke : Verdict

-- What the buttons ask of the mutations; `pending` mutations are `approving` and so on.
pub record Page : Type 0 where
  pub request_open : Bool
  pub policies_open : Bool
  pub export_open : Bool
  pub export_from : String
  pub export_to : String
  pub confirm : Option (Verdict × AccessRequest)
  pub approving : Bool
  pub revoking : Bool
  pub exporting : Bool

abbrev pub opened : Page
opened = record {
  request_open = false;
  policies_open = false;
  export_open = false;
  export_from = "";
  export_to = "";
  confirm = none;
  approving = false;
  revoking = false;
  exporting = false;
}

pub data Effect : Type 0 where
  ask_approve ask_deny ask_revoke : String → Effect
  ask_export : AccessRequestExportQuery → Effect
  refetch : Effect

abbrev is_admin : Option RoleName → Bool
is_admin (some admin) = true
is_admin _ = false

abbrev is_approver : Option RoleName → Bool
is_approver (some approver) = true
is_approver _ = false

unfoldable pub is_instance_admin : AuthStore → Bool
is_instance_admin s = is_admin (role_for s instance_scope)

unfoldable pub is_privileged : AuthStore → Bool
unfolding is_instance_admin
is_privileged s = is_instance_admin s || is_approver (role_for s instance_scope)

abbrev made_by : Option AuthUser → AccessRequest → Bool
made_by none r = false
made_by (some u) r = r.requester == u.username

unfoldable pub is_own_request : AuthStore → AccessRequest → Bool
is_own_request s r = made_by s.user r

pub data Event : Type 0 where
  click_approve click_deny click_revoke : AccessRequest → Event
  confirmed cancelled refresh open_request close_request : Event
  open_policies close_policies open_export close_export export_csv : Event
  set_from set_to : String → Event

abbrev is_pending : AccessRequestStatus → Bool
is_pending pending = true
is_pending _ = false

abbrev is_approved : AccessRequestStatus → Bool
is_approved approved = true
is_approved _ = false

-- The controls; the requests are those that are listed when the button is pressed.
unfoldable pub controls : AuthStore → Page → Event → Bool
unfolding is_privileged is_instance_admin is_own_request
controls s p (click_approve r) =
    is_privileged s && (is_pending r.status && not (is_own_request s r))
controls s p (click_deny r) = is_privileged s && is_pending r.status
controls s p (click_revoke r) = is_privileged s && is_approved r.status
controls s p confirmed = is_some p.confirm && not (p.approving || p.revoking)
controls s p cancelled = is_some p.confirm
controls s p open_policies = is_instance_admin s
controls s p close_policies = p.policies_open
controls s p open_export = is_instance_admin s
controls s p close_export = p.export_open
controls s p export_csv = p.export_open && not p.exporting
controls s p (set_from v) = p.export_open
controls s p (set_to v) = p.export_open
controls s p close_request = p.request_open
controls s p _ = true

-- `v || undefined`
abbrev or_undefined : String → Option String
or_undefined v = if v == "" then none else some v

-- `handleConfirm`
unfoldable pub handle_confirm : Page → Page × List Effect
handle_confirm p = elim p.confirm [
  | none ↦ (p, [])
  | some (approve, r) ↦ (record p { approving = true }, ask_approve r.id ∷ [])
  | some (revoke, r) ↦ (record p { revoking = true }, ask_revoke r.id ∷ [])
]

unfoldable pub handle : Event → Page → Page × List Effect
unfolding handle_confirm
handle (click_approve r) p = (record p { confirm = some (approve, r) }, [])
handle (click_revoke r) p = (record p { confirm = some (revoke, r) }, [])
handle (click_deny r) p = (p, ask_deny r.id ∷ [])
handle confirmed p = handle_confirm p
handle cancelled p = (record p { confirm = none }, [])
handle refresh p = (p, refetch ∷ [])
handle open_request p = (record p { request_open = true }, [])
handle close_request p = (record p { request_open = false }, [])
handle open_policies p = (record p { policies_open = true }, [])
handle close_policies p = (record p { policies_open = false }, [])
handle open_export p = (record p { export_open = true }, [])
handle close_export p = (record p { export_open = false }, [])
handle (set_from v) p = (record p { export_from = v }, [])
handle (set_to v) p = (record p { export_to = v }, [])
handle export_csv p = (
  record p { exporting = true },
  ask_export (record { from = or_undefined p.export_from; to = or_undefined p.export_to }) ∷ [],
)

-- One step of the page: an enabled control, or the answer of a mutation that is waited for.
pub data Step (s : AuthStore) (p : Page) : Page → List Effect → Type 0 where
  control : (e : Event) → controls s p e ≡ true → Step s p (handle e p).0 (handle e p).1
  approve_done : p.approving ≡ true → Step s p (record p { approving = false; confirm = none }) []
  approve_failed : p.approving ≡ true → Step s p (record p { approving = false }) []
  revoke_done : p.revoking ≡ true → Step s p (record p { revoking = false; confirm = none }) []
  revoke_failed : p.revoking ≡ true → Step s p (record p { revoking = false }) []
  export_done :
      p.exporting ≡ true → Step s p (record p { exporting = false; export_open = false }) []
  export_failed : p.exporting ≡ true → Step s p (record p { exporting = false }) []

-- The states that steps lead to from the start, for one session.
pub data Reach (s : AuthStore) : Page → Type 0 where
  here : Reach s opened
  then_ : {p q : Page} {es : List Effect} → Reach s p → Step s p q es → Reach s q
