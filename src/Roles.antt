-- ===== src/Roles.antt =====
-- frontend/src/components/rbac/RoleEditorModal.tsx: the editor of a role, its rules, and the import
-- of rules from YAML. Texts, icons and styles of the markup are left out.
pub mod Editing
pub mod Controls
pub mod Identity
pub mod Fields
pub mod Verbs
mod Tests
use clustervision.Base.{
  ℕ, zero, suc, String, ◌≡◌, Bool, true, false, not, ◌&&◌, ◌||◌, List, [], ◌∷◌, ◌++◌, map, Option,
  none, some, ◌==◌, ◌<>◌, trim, split, join, non_empty, includes, filter, is_empty, is_some, get_or,
  if◌then◌else◌,
}
use clustervision.Yaml.{PolicyRule, YamlError, Outcome, returns, throws, message}

-- types/rbac.ts
pub record RoleRead : Type 0 where
  pub name : String
  pub namespace : Option String
  pub rules : List PolicyRule
  pub is_system : Bool

-- The properties that the page passes; `onSave` and `onClose` are effects.
pub record Props : Type 0 where
  pub role : Option RoleRead
  pub copy_from : Option RoleRead
  pub namespace : Option String
  pub namespaces : List String
  pub is_cluster : Bool
  pub loading : Bool

pub record Editor : Type 0 where
  pub name : String
  pub namespace : String
  pub rules : List PolicyRule
  pub show_import : Bool
  pub yaml_text : String
  pub yaml_error : Option String
  pub importing : Bool

pub data Effect : Type 0 where
  on_save : String → List PolicyRule → Option String → Effect
  parse_rules : String → Effect
  on_close : Effect

abbrev pub all_verbs : List String
all_verbs =
    "get" ∷ "list" ∷ "watch" ∷ "create" ∷ "update" ∷ "patch" ∷ "delete" ∷ "deletecollection" ∷ []

abbrev pub empty_rule : PolicyRule
empty_rule = record { api_groups = "" ∷ []; resources = []; verbs = []; resource_names = none }

-- `RuleRow`
unfoldable pub toggle_verb : String → PolicyRule → PolicyRule
toggle_verb v rule = record rule {
  verbs =
      if includes rule.verbs v then filter (λ x. not (x == v)) rule.verbs else rule.verbs ++ v ∷ [];
}

-- `e.target.value.split(',').map((s) => s.trim())`
unfoldable pub split_trimmed : String → List String
split_trimmed text = map trim (split b',' text)

unfoldable pub set_api_groups : String → PolicyRule → PolicyRule
unfolding split_trimmed
set_api_groups text rule = record rule { api_groups = split_trimmed text }

unfoldable pub set_resources : String → PolicyRule → PolicyRule
unfolding split_trimmed
set_resources text rule = record rule { resources = non_empty (split_trimmed text) }

-- What the field of the resources shows.
unfoldable pub resources_text : PolicyRule → String
resources_text rule = join ", " rule.resources

abbrev pub is_edit : Props → Bool
is_edit p = is_some p.role

abbrev pub is_copy : Props → Bool
is_copy p = is_some p.copy_from

abbrev or_else : Option String → Option String → Option String
or_else none b = b
or_else (some a) b = some a

abbrev name_of : Option RoleRead → Option String
name_of none = none
name_of (some r) = some r.name

abbrev namespace_of : Option RoleRead → Option String
namespace_of none = none
namespace_of (some r) = r.namespace

abbrev copy_name : Option RoleRead → String
copy_name none = ""
copy_name (some r) = "copy-of-" <> r.name

-- `role?.rules?.length ? role.rules : …`
abbrev rules_or : Option RoleRead → List PolicyRule → List PolicyRule
rules_or none others = others
rules_or (some r) others = if is_empty r.rules then others else r.rules

unfoldable pub start : Props → Editor
start p = record {
  name = get_or (name_of p.role) (copy_name p.copy_from);
  namespace =
      get_or (or_else (namespace_of p.role) (or_else (namespace_of p.copy_from) p.namespace))
        "default";
  rules = rules_or p.role (rules_or p.copy_from (empty_rule ∷ []));
  show_import = false;
  yaml_text = "";
  yaml_error = none;
  importing = false;
}

-- `prev.map((x, idx) => (idx === i ? f x : x))`; a row's change is made from the rule it shows.
unfoldable pub update_rule : ℕ → (PolicyRule → PolicyRule) → List PolicyRule → List PolicyRule
update_rule i f [] = []
update_rule zero f (x ∷ xs) = f x ∷ xs
update_rule (suc i) f (x ∷ xs) = x ∷ update_rule i f xs

-- `prev.filter((_, idx) => idx !== i)`
unfoldable pub remove_rule : ℕ → List PolicyRule → List PolicyRule
remove_rule i [] = []
remove_rule zero (x ∷ xs) = xs
remove_rule (suc i) (x ∷ xs) = x ∷ remove_rule i xs

unfoldable pub close_import : Editor → Editor
close_import s = record s { show_import = false; yaml_text = ""; yaml_error = none }

-- `handleImportYaml` up to its `await`.
unfoldable pub handle_import_yaml : Editor → Editor × List Effect
handle_import_yaml s =
    (record s { importing = true; yaml_error = none }, parse_rules s.yaml_text ∷ [])

-- The rest of it, when `parseRulesYaml` returns or throws; `none` is an error of another kind.
unfoldable pub rules_parsed : List PolicyRule → Editor → Editor
unfolding close_import
rules_parsed imported s = record (close_import (record s { rules = imported })) {
  importing = false;
}

unfoldable pub parse_failed : Option YamlError → Editor → Editor
parse_failed none s = record s { yaml_error = some "Failed to parse YAML"; importing = false }
parse_failed (some e) s = record s { yaml_error = some (message e); importing = false }

-- The rest of it when the parser has answered.
unfoldable pub finish_import : Outcome (List PolicyRule) → Editor → Editor
unfolding rules_parsed parse_failed
finish_import (returns imported) s = rules_parsed imported s
finish_import (throws e) s = parse_failed (some e) s

unfoldable pub handle_save : Props → Editor → List Effect
handle_save p s =
    if trim s.name == ""
    then []
    else on_save (trim s.name) s.rules (if p.is_cluster then none else some s.namespace) ∷ []
