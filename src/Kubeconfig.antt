-- ===== src/Kubeconfig.antt =====
-- frontend/src/components/kubeconfig/KubeconfigPanel.tsx: the panel that generates a kubeconfig. React
-- runs the effects of a render whose dependencies have changed, in their order, and renders again
-- with the state that they set; a timer keeps the handler of the render that has set it. Left out
-- are the texts, the copy and the download of the result, and the reading of an uploaded key,
-- which ends as if the key were typed.
pub mod Selecting
pub mod Requests
pub mod Previews
pub mod Copying
pub mod Shown
mod Tests
use clustervision.Base.{
  String, ◌≡◌, Bool, true, false, not, ◌&&◌, ◌||◌, List, [], ◌∷◌, Option, none, some, ◌==◌, ◌<>◌,
  trim, find, is_some, is_empty, if◌then◌else◌,
}
use clustervision.Types.{UserType, certificate, service_account, User, KubeconfigRequest}

-- The state of the mutation that generates.
pub data Fetch : Type 0 where
  idle pending failed : Fetch
  ready : String → Fetch

-- The parameters `preselectedName` and `preselectedNamespace`.
pub record Props : Type 0 where
  pub preselected_name : Option String
  pub preselected_namespace : Option String

-- What the hooks give, the state, and the refs; `timer` is what the handler of the timer asks for.
pub record Panel : Type 0 where
  pub users : List User
  pub vault_enabled : Bool
  pub can_write : Bool
  pub selected_key : String
  pub namespace : String
  pub private_key : String
  pub preselection_done : Bool
  pub generate : Fetch
  pub timer : Option KubeconfigRequest
  pub prev_key : String
  pub prev_ns : String

abbrev namespace_or : Option String → String
namespace_or none = ""
namespace_or (some ns) = ns

-- The panel when it is opened, before the users are loaded.
unfoldable pub opened : Props → Bool → Bool → Panel
opened props vault write = record {
  users = [];
  vault_enabled = vault;
  can_write = write;
  selected_key = "";
  namespace = namespace_or props.preselected_namespace;
  private_key = "";
  preselection_done = false;
  generate = idle;
  timer = none;
  prev_key = "";
  prev_ns = namespace_or props.preselected_namespace;
}

-- `userKey`
abbrev pub user_key : User → String
user_key u = u.namespace <> "/" <> u.name

unfoldable pub selected_user : Panel → Option User
selected_user p = find (λ u. user_key u == p.selected_key) p.users

abbrev pub is_certificate : UserType → Bool
is_certificate certificate = true
is_certificate service_account = false

abbrev pub type_is_cert : Option User → Bool
type_is_cert none = false
type_is_cert (some u) = is_certificate u.user_type

unfoldable pub is_cert : Panel → Bool
is_cert p = type_is_cert (selected_user p)

unfoldable pub can_generate : Panel → Bool
can_generate p =
    p.can_write
    && is_some (selected_user p)
    && (not (is_cert p) || not (trim p.private_key == "") || p.vault_enabled)

-- `v || undefined`
abbrev pub or_undefined : String → Option String
or_undefined v = if v == "" then none else some v

abbrev sa_namespace_of : UserType → User → Option String
sa_namespace_of service_account u = or_undefined u.namespace
sa_namespace_of certificate u = none

abbrev key_of : UserType → String → Option String
key_of service_account key = none
key_of certificate key = some key

unfoldable pub request_for : Panel → User → KubeconfigRequest
request_for p u = record {
  username = u.name;
  user_type = u.user_type;
  namespace = p.namespace;
  sa_namespace = sa_namespace_of u.user_type u;
  private_key_pem = key_of u.user_type p.private_key;
}

abbrev request_of : Panel → Option User → Option KubeconfigRequest
request_of p none = none
request_of p (some u) = some (request_for p u)

-- `handleGenerate` of this render: what `generate.mutate` is called with.
unfoldable pub handle_generate : Panel → Option KubeconfigRequest
handle_generate p = if can_generate p then request_of p (selected_user p) else none

-- Only the namespace differs from the last run of the effect.
unfoldable pub ns_only_changed : Panel → Bool
ns_only_changed p = not (p.prev_ns == p.namespace) && p.prev_key == p.selected_key

-- The timer that the effect sets.
unfoldable pub auto_timer : Panel → Option KubeconfigRequest
auto_timer p =
    if not (can_generate p) || (is_cert p && not p.vault_enabled)
    then none
    else if is_cert p && ns_only_changed p
    then none
    else handle_generate p

-- The effect on the key, the namespace, the users and Vault, with the cleanup of its last run,
-- which has stopped the timer.
unfoldable pub auto_generate : Panel → Panel
auto_generate p = record p {
  prev_ns = p.namespace;
  prev_key = p.selected_key;
  timer = auto_timer p;
}

abbrev own_namespace : Option User → String → String
own_namespace none ns = ns
own_namespace (some u) ns = if u.namespace == "" then ns else u.namespace

-- The state that the effect on the key sets, where `p` is the render.
unfoldable pub user_changed : Panel → Panel → Panel
user_changed p q = record q {
  namespace = own_namespace (selected_user p) q.namespace;
  generate = idle;
  private_key = "";
}

-- A render with another namespace than the one before.
unfoldable pub ns_rendered : String → Panel → Panel
ns_rendered before p = if before == p.namespace then p else auto_generate p

abbrev pub same_bool : Bool → Bool → Bool
same_bool true b = b
same_bool false b = not b

-- A render with another state of Vault, if it is another.
unfoldable pub vault_rendered : Bool → Panel → Panel
vault_rendered b p =
    if same_bool b p.vault_enabled then p else auto_generate (record p { vault_enabled = b })

-- A render with another key than the one before: both effects, and the render that follows.
unfoldable pub key_rendered : String → Panel → Panel
key_rendered before p =
    if before == p.selected_key
    then p
    else ns_rendered p.namespace (user_changed p (auto_generate p))

abbrev same_namespace : Option String → User → Bool
same_namespace none u = false
same_namespace (some ns) u = u.namespace == ns

abbrev either {ℓ} : {A : Type ℓ} → Option A → Option A → Option A
either (some a) b = some a
either none b = b

-- The user with the name and the namespace, or else with the name.
unfoldable pub match_of : List User → String → Option String → Option User
match_of users name ns =
    either (find (λ u. u.name == name && same_namespace ns u) users)
      (find (λ u. u.name == name) users)

abbrev keyed : Option User → String → String
keyed none key = key
keyed (some u) key = user_key u

abbrev preselect_name : Props → String → Panel → Panel
preselect_name props name p =
    if p.preselection_done || name == "" || is_empty p.users then p else record p {
      preselection_done = true;
      selected_key = keyed (match_of p.users name props.preselected_namespace) p.selected_key;
    }

-- The state that the effect of the preselection sets.
unfoldable pub preselect : Props → Panel → Panel
preselect props p = elim props.preselected_name [
  | none ↦ p
  | some name ↦ preselect_name props name p
]

-- What happens to the panel: the hooks give another value, a field is changed, the button is
-- pressed, the timer fires, or the mutation answers.
pub data Event : Type 0 where
  users_loaded : List User → Event
  vault_changed write_changed : Bool → Event
  select_key select_namespace set_private_key : String → Event
  click_generate timer_fired : Event
  answered : Fetch → Event

abbrev is_pending : Fetch → Bool
is_pending pending = true
is_pending _ = false

-- `generate.mutate`, if it is called.
unfoldable pub ask : Option KubeconfigRequest → Panel → Panel × List KubeconfigRequest
ask none p = (p, [])
ask (some r) p = (record p { generate = pending }, r ∷ [])

-- When an event can happen.
unfoldable pub controls : Panel → Event → Bool
controls p click_generate = is_cert p && can_generate p && not (is_pending p.generate)
controls p (set_private_key v) = is_cert p
controls p timer_fired = is_some p.timer
controls p (answered f) = is_pending p.generate
controls p _ = true

unfoldable pub handle : Props → Event → Panel → Panel × List KubeconfigRequest
handle props (users_loaded us) p =
    let q : Panel = record p { users = us } in
    (key_rendered q.selected_key (preselect props (auto_generate q)), [])
handle props (vault_changed b) p = (vault_rendered b p, [])
handle props (write_changed b) p = (record p { can_write = b }, [])
handle props (select_key k) p = (key_rendered p.selected_key (record p { selected_key = k }), [])
handle props (select_namespace ns) p = (ns_rendered p.namespace (record p { namespace = ns }), [])
handle props (set_private_key v) p = (record p { private_key = v }, [])
handle props click_generate p = ask (handle_generate p) p
handle props timer_fired p = ask p.timer (record p { timer = none })
handle props (answered f) p = (record p { generate = f }, [])

-- One use of the panel.
pub data Reach (props : Props) : Panel → Type 0 where
  here : (vault write : Bool) → Reach props (opened props vault write)
  then_ :
      {p : Panel}
      → Reach props p
      → (e : Event) → controls p e ≡ true
      → Reach props (handle props e p).0
