-- ===== src/Roles/Tests.antt =====
-- The theorems of the role editor at concrete roles.
use clustervision.Base.{
  String, ◌≡◌, refl, false, List, [], ◌∷◌, none, some, eq_iff, ◌<>◌, join, each, is_space, arith,
}
use clustervision.Base.Json.{str, obj, end, field, arr, cons, nil}
use clustervision.Yaml.{PolicyRule, Loaded, loaded}
use clustervision.Roles.{RoleRead, Props, Editor, empty_rule, set_resources, resources_text, start}
use clustervision.Roles.Controls.{add, handle, controls, Reach, here, then_, control}
use clustervision.Roles.Fields.{set_resources-text}

abbrev reading : PolicyRule
reading = record {
  api_groups = "" ∷ [];
  resources = "pods" ∷ "secrets" ∷ [];
  verbs = "get" ∷ [];
  resource_names = none;
}

abbrev reader : RoleRead
reader = record { name = "reader"; namespace = some "ci"; rules = reading ∷ []; is_system = false }

abbrev editing : Props
editing = record {
  role = some reader;
  copy_from = none;
  namespace = none;
  namespaces = "ci" ∷ [];
  is_cluster = false;
  loading = false;
}

shown : resources_text reading ≡ "pods, secrets"
unfolding resources_text join
shown = refl

abbrev widened : Editor
widened = record (start editing) { rules = reading ∷ empty_rule ∷ [] }

abbrev reach_widened : Reach editing (start editing) widened
unfolding handle controls start
reach_widened = then_ here (control add refl)

abbrev two : List PolicyRule
two = reading ∷ empty_rule ∷ []

abbrev any_load : String → Loaded
any_load text = loaded (arr (cons (obj (field "verbs" (str "get") end)) nil))

set_resources-text_example :
    (set_resources (resources_text reading) reading ≡ reading)
    × (set_resources (resources_text reading <> ",") reading ≡ reading)
set_resources-text_example = set_resources-text reading (
  record { given = ground (arith, eq_iff "pods" ""); plain = unfold each is_space in refl },
  (
    record { given = ground (arith, eq_iff "secrets" ""); plain = unfold each is_space in refl },
    tt,
  ),
)
