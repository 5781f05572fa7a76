-- ===== src/Yaml.antt =====
-- frontend/src/lib/parseRbacYaml.ts: RBAC rules from a YAML document. js-yaml's `load` is a
-- parameter; what it returns is a `Value`.
pub mod Accepts
pub mod Errors
pub mod Roundtrip
mod Tests
use clustervision.Base.{
  ℕ, suc, ◌+◌, String, ◌≡◌, Bool, List, [], ◌∷◌, Option, none, some, ◌==◌, ◌<>◌, show, is_empty,
  if◌then◌else◌,
}
use clustervision.Base.Json.{
  Value, undefined, null, bool, num, str, arr, obj, Items, nil, cons, Fields, get,
}

-- types/rbac.ts
pub record PolicyRule : Type 0 where
  pub api_groups : List String
  pub resources : List String
  pub verbs : List String
  pub resource_names : Option (List String)

-- The places that throw an `RbacYamlError`; rules are counted from 0.
pub data YamlError : Type 0 where
  invalid_yaml : Option String → YamlError
  not_a_list no_rules : YamlError
  not_a_mapping : ℕ → YamlError
  bad_field : ℕ → String → YamlError
  verbs_required : ℕ → YamlError

-- The text of the error.
pub message : YamlError → String
unfolding show
message (invalid_yaml none) = "Invalid YAML"
message (invalid_yaml (some m)) = "Invalid YAML: " <> m
message not_a_list = "Expected a list of rules, or an object with a \"rules:\" array"
message no_rules = "No rules found"
message (not_a_mapping i) =
    "Rule " <> show (i + 1) <> " must be a mapping (apiGroups/resources/verbs)"
message (bad_field i f) =
    "Rule " <> show (i + 1) <> ": \"" <> f <> "\" must be a string or a list of strings"
message (verbs_required i) = "Rule " <> show (i + 1) <> ": \"verbs\" is required"

pub data Outcome {ℓ} (A : Type ℓ) : Type ℓ where
  returns : A → Outcome A
  throws : YamlError → Outcome A

infixl 5 ◌>>=◌
abbrev pub ◌>>=◌ {ℓ κ} : {A : Type ℓ} {B : Type κ} → Outcome A → (A → Outcome B) → Outcome B
returns a >>= f = f a
throws e >>= f = throws e

-- `value.every((v) => typeof v === 'string')`, with the texts
unfoldable pub all_strings : Items → Option (List String)
all_strings nil = some []
all_strings (cons (str s) vs) = elim (all_strings vs) [ none ↦ none | some ss ↦ some (s ∷ ss) ]
all_strings (cons _ vs) = none

abbrev or_throw : Option (List String) → YamlError → Outcome (List String)
or_throw (some ss) e = returns ss
or_throw none e = throws e

unfoldable pub as_string_array : Value → String → ℕ → Outcome (List String)
as_string_array undefined field i = returns []
as_string_array null field i = returns []
as_string_array (str s) field i = returns (s ∷ [])
as_string_array (arr vs) field i = or_throw (all_strings vs) (bad_field i field)
as_string_array _ field i = throws (bad_field i field)

-- `a ?? b`
unfoldable pub coalesce : Value → Value → Value
coalesce undefined b = b
coalesce null b = b
coalesce a b = a

abbrev names_of : List String → Option (List String)
names_of [] = none
names_of (n ∷ ns) = some (n ∷ ns)

-- `apiGroups.length ? apiGroups : ['']`
abbrev groups_of : List String → List String
groups_of [] = "" ∷ []
groups_of (g ∷ gs) = g ∷ gs

abbrev finish : ℕ → List String → List String → List String → List String → Outcome PolicyRule
finish i groups resources [] names = throws (verbs_required i)
finish i groups resources (v ∷ verbs) names = returns (record {
  api_groups = groups_of groups;
  resources = resources;
  verbs = v ∷ verbs;
  resource_names = names_of names;
})

pub parse_fields : Fields → ℕ → Outcome PolicyRule
parse_fields r i = do
  groups ← as_string_array (coalesce (get "apiGroups" r) (get "api_groups" r)) "apiGroups" i
  resources ← as_string_array (get "resources" r) "resources" i
  verbs ← as_string_array (get "verbs" r) "verbs" i
  names ←
      as_string_array (coalesce (get "resourceNames" r) (get "resource_names" r)) "resourceNames" i
  finish i groups resources verbs names

-- The callback of `rulesValue.map`.
pub parse_rule : Value → ℕ → Outcome PolicyRule
unfolding parse_fields
parse_rule (obj r) i = parse_fields r i
parse_rule _ i = throws (not_a_mapping i)

-- `rulesValue.map`, from index `i`: the first throw ends it.
pub parse_rules : Items → ℕ → Outcome (List PolicyRule)
parse_rules nil i = returns []
parse_rules (cons entry rest) i = do
  rule ← parse_rule entry i
  rules ← parse_rules rest (suc i)
  returns (rule ∷ rules)

abbrev only_items : Value → Option Items
only_items (arr vs) = some vs
only_items _ = none

-- `rulesValue`: a bare list, or the `rules` list of an object.
unfoldable pub rules_value : Value → Option Items
rules_value (arr vs) = some vs
rules_value (obj fs) = only_items (get "rules" fs)
rules_value _ = none

abbrev pub from_items : Option Items → Outcome (List PolicyRule)
from_items none = throws not_a_list
from_items (some nil) = throws no_rules
from_items (some (cons v vs)) = parse_rules (cons v vs) 0

-- What follows the call of `load`.
pub parse_value : Value → Outcome (List PolicyRule)
parse_value v = from_items (rules_value v)

-- What `load(text)` does: it returns a value, or throws an `Error` with a message or something else.
pub data Loaded : Type 0 where
  loaded : Value → Loaded
  threw : Option String → Loaded

abbrev after_load : Loaded → Outcome (List PolicyRule)
after_load (loaded v) = parse_value v
after_load (threw m) = throws (invalid_yaml m)

module _ (load : String → Loaded) where
  pub parse_rules_yaml : String → Outcome (List PolicyRule)
  parse_rules_yaml text = after_load (load text)
