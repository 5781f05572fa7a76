-- ===== src/Permissions/Tests.antt =====
-- Runs of the form that assigns a role.
use clustervision.Base.{String, ◌≡◌, ◌≢◌, refl, true, [], ◌∷◌, some}
use clustervision.Types.{service_account, RoleKind, namespaced_role}
use clustervision.Requests.{role_option}
use clustervision.Requests.Split.{is_single}
use clustervision.Permissions.{
  namespace, Props, Panel, opened, role_options, ask_assign, toggle_assign, click_add, set_scope,
  set_namespace, set_role, controls, handle,
}
use clustervision.Permissions.Assigning.{Reach, here, then_, assigned, Reach-Assigns}

abbrev bot : Props
bot = record {
  username = "bot";
  user_type = service_account;
  user_namespace = some "ops";
  can_write = true;
}

abbrev chosen : Panel
chosen = record opened {
  show_assign = true;
  scope = namespace;
  selected_ns = "team";
  selected_role = "Role::reader";
}

abbrev reach_chosen : Reach bot chosen
unfolding controls handle role_options is_single
reach_chosen =
    then_
      (then_
        (then_ (then_ here [] [] [] tt tt toggle_assign refl) [] [] [] tt tt (set_scope namespace)
          refl)
        ("team" ∷ []) [] [] tt tt (set_namespace "team") refl)
      [] ("reader" ∷ []) [] (refl, tt) tt (set_role "Role::reader") refl

Reach-Assigns_example :
    (kind : RoleKind) × (name : String) × (chosen.selected_role ≡ role_option kind name)
    × ((handle bot click_add chosen).1 ≡ ask_assign (assigned bot chosen kind name) ∷ [])
    × (kind ≡ namespaced_role → (chosen.scope ≡ namespace) × (chosen.selected_ns ≢ ""))
Reach-Assigns_example = Reach-Assigns reach_chosen (λ e. cc)
