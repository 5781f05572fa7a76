-- ===== src/Dashboard/Tests.antt =====
-- Runs of the dashboard.
use clustervision.Base.{refl, [], ◌∷◌, none, some, All}
use clustervision.Types.{user_kind, cluster_role, AccessRequest, pending}
use clustervision.Auth.{approver, instance_scope, AuthStore, role_for}
use clustervision.Requests.Review.{is_privileged, is_instance_admin, is_own_request}
use clustervision.Dashboard.{
  Page, opened, all_pending, counted, rows, click_approve, confirmed, controls, handle, Reach, here,
  used,
}
use clustervision.Dashboard.Deciding.{Decides, Reach-Decides}

abbrev rita : AuthStore
rita = record {
  user = some (record { username = "rita"; roles = (instance_scope, approver) ∷ [] });
  access_token = some "t";
}

abbrev wanted : AccessRequest
wanted = record {
  id = "8";
  requester = "carl";
  target_username = "bot";
  kind = user_kind;
  sa_namespace = none;
  role_name = "edit";
  role_kind = cluster_role;
  namespace = none;
  ttl_minutes = 30;
  reason = "release";
  status = pending;
}

abbrev asking : Page
asking = record opened { approve_target = some wanted }

abbrev reach_asking : Reach rita asking
unfolding controls handle rows counted all_pending is_privileged is_instance_admin is_own_request
    role_for
reach_asking = used here (wanted ∷ []) (click_approve 0) refl

Reach-Decides_example : All (Decides rita [] asking confirmed) (handle rita [] confirmed asking).1
Reach-Decides_example = Reach-Decides reach_asking [] confirmed (unfold controls in refl)
