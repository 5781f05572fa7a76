-- ===== src/Requests/Tests.antt =====
-- The theorems of the requests at a concrete form and page.
use clustervision.Base.{◌≡◌, refl, true, [], ◌∷◌, none, some, All, trim}
use clustervision.Types.{
  service_account, user_kind, cluster_role, namespaced_role, User, AccessRequest,
  AccessRequestCreatePayload, pending,
}
use clustervision.Auth.{approver, instance_scope, AuthStore, role_for}
use clustervision.Requests.{
  cluster, namespace, Form, split_colons, split_from, target_of, can_submit, handle_submit,
  set_scope, handle,
}
use clustervision.Requests.Split.{is_single}
use clustervision.Requests.Submitting.{Submitted, handle_submit-faithful, switch_to_cluster}
use clustervision.Requests.Review.{
  Page, opened, approve, click_approve, confirmed, ask_approve, controls, Step, Reach, here, then_,
  control, is_privileged, is_instance_admin, is_own_request, handle_confirm,
}
use clustervision.Requests.Review
use clustervision.Requests.Approving.{Allowed, Reach-Allowed}

abbrev bot : User
bot = record {
  name = "bot";
  user_type = service_account;
  groups = [];
  namespace = "ci";
  created_at = "";
  cert_expiry = none;
  csr_name = none;
}

abbrev filled : Form
filled = record {
  target_key = "ci/bot";
  scope = namespace;
  namespace = "ci";
  role_value = "Role::system:reader";
  ttl_minutes = 60;
  reason = "incident";
}

split_value : split_colons "Role::system:reader" ≡ "Role" ∷ "system:reader" ∷ []
unfolding split_colons split_from
split_value = refl

submits : can_submit (bot ∷ []) filled ≡ true
unfolding can_submit target_of trim
submits = refl

handle_submit-faithful_example :
    (u : User) × (p : AccessRequestCreatePayload) × (handle_submit (bot ∷ []) filled ≡ some p)
    × Submitted filled u p
    × (p.role_kind ≡ namespaced_role)
    × (p.role_name ≡ "system:reader")
handle_submit-faithful_example =
    handle_submit-faithful (bot ∷ []) filled namespaced_role "system:reader" submits refl
      (unfold is_single in refl)

switch_to_cluster_example :
    (p : AccessRequestCreatePayload) × (handle_submit (bot ∷ []) (handle (set_scope cluster) filled)
      ≡ some p)
    × (p.role_kind ≡ namespaced_role)
    × (p.role_name ≡ "system:reader")
    × (p.namespace ≡ none)
switch_to_cluster_example =
    switch_to_cluster (bot ∷ []) filled "system:reader" submits refl (unfold is_single in refl)

abbrev reviewer : AuthStore
reviewer = record {
  user = some (record { username = "rita"; roles = (instance_scope, approver) ∷ [] });
  access_token = some "t";
}

abbrev wanted : AccessRequest
wanted = record {
  id = "7";
  requester = "bob";
  target_username = "bot";
  kind = user_kind;
  sa_namespace = none;
  role_name = "view";
  role_kind = cluster_role;
  namespace = none;
  ttl_minutes = 60;
  reason = "incident";
  status = pending;
}

abbrev asking : Page
asking = record opened { confirm = some (approve, wanted) }

abbrev reach_asking : Reach reviewer asking
unfolding controls Review.handle is_privileged is_instance_admin is_own_request role_for
reach_asking = then_ here (control (click_approve wanted) refl)

Reach-Allowed_example : All (Allowed reviewer asking confirmed) (Review.handle confirmed asking).1
Reach-Allowed_example = Reach-Allowed reach_asking confirmed (unfold controls in refl)
