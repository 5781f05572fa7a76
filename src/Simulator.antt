-- ===== src/Simulator.antt =====
-- frontend/src/components/rbac/AccessSimulatorPanel.tsx: the form that asks what a user may do, and
-- the answer that it shows. The list of namespaces is what the hook returns; texts of the labels and
-- styles are left out.
pub mod Showing
mod Tests
use clustervision.Base.{
  String, ◌≡◌, Bool, true, false, not, ◌&&◌, ◌||◌, List, [], ◌∷◌, Option, none, some, ◌==◌, trim,
  includes, is_some, if◌then◌else◌,
}
use clustervision.Types.{CheckAccessRequest}

-- types/rbac.ts
pub record CheckAccessResult : Type 0 where
  pub allowed : Bool
  pub reason : String

abbrev pub common_verbs : List String
common_verbs =
    "get" ∷ "list" ∷ "watch" ∷ "create" ∷ "update" ∷ "patch" ∷ "delete" ∷ "deletecollection" ∷ []

abbrev common_resources : List String
common_resources =
    "pods" ∷ "deployments" ∷ "services" ∷ "configmaps" ∷ "secrets" ∷ "serviceaccounts" ∷ "roles"
    ∷ "rolebindings" ∷ "clusterroles" ∷ "clusterrolebindings" ∷ "namespaces" ∷ "nodes"
    ∷ "persistentvolumes" ∷ "persistentvolumeclaims" ∷ []

pub record Form : Type 0 where
  pub user : String
  pub verb : String
  pub resource : String
  pub custom_resource : String
  pub namespace : String
  pub api_group : String

-- The panel; `asked` is what the pending check was asked for.
pub record Panel : Type 0 where
  pub form : Form
  pub result : Option CheckAccessResult
  pub asked : Option CheckAccessRequest

abbrev pub opened : Panel
opened = record {
  form = record {
    user = "";
    verb = "get";
    resource = "pods";
    custom_resource = "";
    namespace = "";
    api_group = "";
  };
  result = none;
  asked = none;
}

-- `customResource.trim() || resource`
unfoldable pub effective_resource : Form → String
effective_resource f = if trim f.custom_resource == "" then f.resource else trim f.custom_resource

abbrev pub or_undefined : String → Option String
or_undefined v = if v == "" then none else some v

unfoldable pub check_of : Form → CheckAccessRequest
check_of f = record {
  user = trim f.user;
  verb = f.verb;
  resource = effective_resource f;
  namespace = or_undefined f.namespace;
  api_group = or_undefined f.api_group;
}

-- `handleCheck`
unfoldable pub handle_check : Panel → Panel × List CheckAccessRequest
handle_check p =
    if trim p.form.user == "" || effective_resource p.form == ""
    then (p, [])
    else (record p { asked = some (check_of p.form) }, check_of p.form ∷ [])

pub data Event : Type 0 where
  set_user set_verb set_namespace set_resource set_custom_resource set_api_group : String → Event
  click_check : Event
  answered : CheckAccessResult → Event
  failed : Event

-- The value of the list of resources.
unfoldable shown_resource : Form → String
shown_resource f = if f.custom_resource == "" then f.resource else "__custom__"

-- What can happen; the check needs a user who may write on the cluster.
unfoldable pub controls : Bool → List String → Panel → Event → Bool
controls write namespaces p (set_verb v) = includes common_verbs v
controls write namespaces p (set_namespace n) = includes ("" ∷ namespaces) n
controls write namespaces p (set_resource r) = includes common_resources r || r == "__custom__"
controls write namespaces p click_check =
    write
    && not (trim p.form.user == "" || effective_resource p.form == "")
    && not (is_some p.asked)
controls write namespaces p (answered r) = is_some p.asked
controls write namespaces p failed = is_some p.asked
controls write namespaces p _ = true

-- A field that is changed takes the result away.
abbrev edited : Panel → Form → Panel
edited p f = record p { form = f; result = none }

unfoldable pub handle : Event → Panel → Panel × List CheckAccessRequest
handle (set_user v) p = (edited p (record p.form { user = v }), [])
handle (set_verb v) p = (edited p (record p.form { verb = v }), [])
handle (set_namespace n) p = (edited p (record p.form { namespace = n }), [])
handle (set_resource r) p = (
  if r == "__custom__" then p else edited p (record p.form { resource = r; custom_resource = "" }),
  [],
)
handle (set_custom_resource r) p = (edited p (record p.form { custom_resource = r }), [])
handle (set_api_group g) p = (edited p (record p.form { api_group = g }), [])
handle click_check p = handle_check p
handle (answered r) p = (record p { asked = none; result = some r }, [])
handle failed p = (record p { asked = none }, [])

-- The sentence that is shown with a result: whether, who, what and where.
pub record Sentence : Type 0 where
  pub allowed : Bool
  pub user : String
  pub verb : String
  pub resource : String
  pub namespace : Option String

abbrev sentence_of : Form → Option CheckAccessResult → Option Sentence
sentence_of f none = none
sentence_of f (some r) = some (record {
  allowed = r.allowed;
  user = f.user;
  verb = f.verb;
  resource = effective_resource f;
  namespace = or_undefined f.namespace;
})

unfoldable pub sentence : Panel → Option Sentence
sentence p = sentence_of p.form p.result
