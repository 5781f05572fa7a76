-- ===== src/Rbac/Tests.antt =====
-- Runs of the page of the roles.
use clustervision.Base.{
  ◌≡◌, refl, true, false, [], ◌∷◌, none, some, All, trim, eq_iff, arith, if◌then◌else◌,
}
use clustervision.Auth.{operator, AuthStore, can_write, role_for}
use clustervision.Roles
use clustervision.Roles.{RoleRead, Editor, start, empty_rule}
use clustervision.Roles.Controls
use clustervision.Rbac.{
  Page, opened, ask_update_cluster_role, ask_update_role, click_edit, click_delete, confirmed,
  controls, handle, from_editor, editor_props, Reach, here, used,
}
use clustervision.Rbac.Editable.{Allowed, Reach-Editable, update-same_role}

abbrev olga : AuthStore
olga = record {
  user = some (record { username = "olga"; roles = ("local", operator) ∷ [] });
  access_token = some "t";
}

abbrev reader : RoleRead
reader = record {
  name = "reader";
  namespace = some "ci";
  rules = empty_rule ∷ [];
  is_system = false;
}

abbrev asking : Page
asking = record opened { delete_target = some (reader, false) }

abbrev reach_asking : Reach olga "local" asking
unfolding controls handle can_write role_for
reach_asking = used here (click_delete reader false) refl

Reach-Editable_example : All (Allowed olga "local" asking) (handle confirmed asking).1
Reach-Editable_example = Reach-Editable reach_asking confirmed (unfold controls in refl) tt

abbrev editing : Page
editing = record opened {
  modal = record { shown = true; is_cluster = false; role = some reader; copy_from = none };
}

edits : (handle (click_edit reader false) opened).0 ≡ editing
unfolding handle
edits = refl

abbrev widened : Editor
unfolding editor_props start
widened = record (start (editor_props editing [])) { rules = empty_rule ∷ empty_rule ∷ [] }

abbrev reach_widened :
    Controls.Reach (editor_props editing []) (start (editor_props editing [])) widened
unfolding editor_props start Controls.handle Controls.controls
reach_widened = Controls.then_ Controls.here (Controls.control Controls.add refl)

update-same_role_example :
    (e : Roles.Effect) × (Roles.handle_save (editor_props editing []) widened ≡ e ∷ [])
    × ((from_editor editing e).1
        ≡ (if false
            then ask_update_cluster_role (trim "reader") widened.rules
            else ask_update_role "ci" (trim "reader") widened.rules)
          ∷ [])
update-same_role_example =
    update-same_role editing [] reader "ci" widened refl refl refl
      (unfold trim in ground (arith, eq_iff "reader" "")) reach_widened
