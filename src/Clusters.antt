-- ===== src/Clusters.antt =====
-- frontend/src/pages/ClustersPage.tsx and components/clusters/AddClusterModal.tsx: the choice of the
-- active cluster, the dialog that adds a cluster by hand or by a script, and the removal. The dialog
-- lives while it is open; texts and styles are left out.
pub mod Registering
pub mod Scripts
mod Tests
use clustervision.Base.{
  ℕ, ◌+◌, ◌-◌, String, ◌≡◌, Bool, true, false, not, ◌&&◌, ◌||◌, List, [], ◌∷◌, ◌++◌, Option, none,
  some, ◌==◌, is_some, trim, includes, any, ltb, num_eq, if◌then◌else◌,
}
use clustervision.Types.{AddClusterPayload}
use clustervision.Auth.{AuthStore, is_instance_admin, ClusterStore, set_active_cluster}
use clustervision.Shell.{ClusterEntry}

pub data Tab : Type 0 where
  manual command : Tab

-- `adding` is `isPending` of the mutation; `asked` has the names whose scripts have not come yet.
pub record Form : Type 0 where
  pub tab : Tab
  pub name : String
  pub api_url : String
  pub ca_data : String
  pub token : String
  pub adding : Bool
  pub cmd_name : String
  pub script : Option String
  pub asked : List String
  pub loading_script : Bool
  pub copied : Bool

abbrev pub fresh : Form
fresh = record {
  tab = command;
  name = "";
  api_url = "";
  ca_data = "";
  token = "";
  adding = false;
  cmd_name = "";
  script = none;
  asked = [];
  loading_script = false;
  copied = false;
}

pub data Effect : Type 0 where
  ask_add : AddClusterPayload → Effect
  ask_script ask_remove write_clipboard : String → Effect

abbrev pub blank : Form → Bool
blank f = f.name == "" || f.api_url == "" || f.ca_data == "" || f.token == ""

-- `handleManualSubmit`
unfoldable pub handle_manual_submit : Form → Form × List Effect
handle_manual_submit f = if blank f then (f, []) else (
  record f { adding = true },
  ask_add (record { name = f.name; api_url = f.api_url; ca_data = f.ca_data; token = f.token })
      ∷ [],
)

-- `handleGenerateScript`, up to its `await`.
unfoldable pub handle_generate_script : Form → Form × List Effect
handle_generate_script f = if trim f.cmd_name == "" then (f, []) else (
  record f { loading_script = true; asked = f.asked ++ trim f.cmd_name ∷ [] },
  ask_script (trim f.cmd_name) ∷ [],
)

abbrev pub copy_text : Form → Option String → Form × List Effect
copy_text f none = (f, [])
copy_text f (some s) =
    if s == "" then (f, []) else (record f { copied = true }, write_clipboard s ∷ [])

-- `handleCopy`
unfoldable pub handle_copy : Form → Form × List Effect
handle_copy f = copy_text f f.script

pub data FormEvent : Type 0 where
  set_tab : Tab → FormEvent
  set_name set_api_url set_ca_data set_token set_cmd_name : String → FormEvent
  submit click_generate press_enter click_copy copied_over : FormEvent

abbrev pub on_manual : Tab → Bool
on_manual manual = true
on_manual command = false

abbrev has_text : Option String → Bool
has_text none = false
has_text (some s) = not (s == "")

-- The controls of the dialog; the key of the field is not held back while a script is loading.
unfoldable pub form_controls : Form → FormEvent → Bool
form_controls f (set_tab t) = true
form_controls f submit = on_manual f.tab && not (blank f) && not f.adding
form_controls f (set_cmd_name v) = not (on_manual f.tab)
form_controls f press_enter = not (on_manual f.tab)
form_controls f click_generate =
    not (on_manual f.tab) && not (trim f.cmd_name == "") && not f.loading_script
form_controls f click_copy = not (on_manual f.tab) && has_text f.script
form_controls f copied_over = f.copied
form_controls f _ = on_manual f.tab

unfoldable pub handle_form : FormEvent → Form → Form × List Effect
handle_form (set_tab t) f = (record f { tab = t }, [])
handle_form (set_name v) f = (record f { name = v }, [])
handle_form (set_api_url v) f = (record f { api_url = v }, [])
handle_form (set_ca_data v) f = (record f { ca_data = v }, [])
handle_form (set_token v) f = (record f { token = v }, [])
handle_form (set_cmd_name v) f = (record f { cmd_name = v }, [])
handle_form submit f = handle_manual_submit f
handle_form click_generate f = handle_generate_script f
handle_form press_enter f = handle_generate_script f
handle_form click_copy f = handle_copy f
handle_form copied_over f = (record f { copied = false }, [])

-- `others` counts the additions that are pending from dialogs that were closed.
pub record Page : Type 0 where
  pub add : Option Form
  pub remove_target : Option String
  pub removing : Option String
  pub others : ℕ
  pub store : ClusterStore

abbrev pub opened : ClusterStore → Page
opened c = record { add = none; remove_target = none; removing = none; others = 0; store = c }

pub data Event : Type 0 where
  open_add close_add close_remove confirm_remove : Event
  in_form : FormEvent → Event
  click_row click_remove : ClusterEntry → Event

abbrev pub open_dialog : Option Form → Page → Page
open_dialog none p = record p { add = some fresh }
open_dialog (some f) p = p

unfoldable pub close_dialog : Option Form → Page → Page
close_dialog none p = p
close_dialog (some f) p = record p {
  add = none;
  others = if f.adding then 1 + p.others else p.others;
}

unfoldable pub use_form : FormEvent → Option Form → Page → Page × List Effect
use_form e none p = (p, [])
use_form e (some f) p = let (f', xs) = handle_form e f in (record p { add = some f' }, xs)

abbrev pub remove_shown : Option String → Page → Page × List Effect
remove_shown none p = (p, [])
remove_shown (some n) p = (record p { removing = some n }, ask_remove n ∷ [])

unfoldable pub handle : Event → Page → Page × List Effect
handle open_add p = (open_dialog p.add p, [])
handle close_add p = (close_dialog p.add p, [])
handle (in_form e) p = use_form e p.add p
handle (click_row c) p = (record p { store = set_active_cluster c.name p.store }, [])
handle (click_remove c) p = (record p { remove_target = some c.name }, [])
handle close_remove p = (record p { remove_target = none }, [])
handle confirm_remove p = remove_shown p.remove_target p

abbrev form_enabled : Option Form → FormEvent → Bool
form_enabled none e = false
form_enabled (some f) e = form_controls f e

abbrev pub shown : Option String → Bool
shown none = false
shown (some n) = not (n == "")

-- The controls, for the clusters that are listed at that moment.
unfoldable pub controls : AuthStore → List ClusterEntry → Page → Event → Bool
controls s clusters p open_add = is_instance_admin s
controls s clusters p close_add = is_some p.add
controls s clusters p (in_form e) = form_enabled p.add e
controls s clusters p (click_row c) = any (λ x. x.name == c.name) clusters
controls s clusters p (click_remove c) =
    is_instance_admin s && not c.is_local && any (λ x. x.name == c.name) clusters
controls s clusters p close_remove = shown p.remove_target
controls s clusters p confirm_remove = shown p.remove_target && not (is_some p.removing)

abbrev pub without_first : String → List String → List String
without_first n [] = []
without_first n (m ∷ ms) = let rest = without_first n ms in if m == n then ms else m ∷ rest

-- The rest of `handleGenerateScript`: the answer for a name, or its failure.
unfoldable pub script_answered : String → Option String → Form → Form
script_answered n none f = record f { loading_script = false; asked = without_first n f.asked }
script_answered n (some s) f = record f {
  script = some s;
  loading_script = false;
  asked = without_first n f.asked;
}

-- The answers; `other_added` is that of a dialog which was closed.
pub data Answer : Type 0 where
  script_of : String → Option String → Answer
  added other_added removed : Bool → Answer

abbrev pub asks : Answer → Option Form → Bool
asks (script_of n a) (some f) = includes f.asked n
asks (added ok) (some f) = f.adding
asks _ o = false

abbrev pub awaits : Page → Answer → Bool
awaits p (other_added ok) = ltb 0 p.others
awaits p (removed ok) = is_some p.removing
awaits p a = asks a p.add

abbrev pub in_dialog : Answer → Option Form → Option Form
in_dialog a none = none
in_dialog (script_of n a) (some f) = some (script_answered n a f)
in_dialog (added false) (some f) = some (record f { adding = false })
in_dialog (added true) (some f) = none
in_dialog _ (some f) = some f

-- What the hook and the page do when a removal has succeeded.
unfoldable pub left : Option String → ClusterStore → ClusterStore
left none c = c
left (some n) c = if c.active_cluster == n then set_active_cluster "local" c else c

unfoldable pub answered : Answer → Page → Page
answered (other_added false) p = record p { others = p.others - 1 }
answered (other_added true) p = close_dialog p.add (record p { others = p.others - 1 })
answered (removed false) p = record p { removing = none }
answered (removed true) p = record p {
  removing = none;
  remove_target = none;
  store = left p.removing p.store;
}
answered a p = record p { add = in_dialog a p.add }

-- One use of the page in a session.
pub data Reach (s : AuthStore) (c : ClusterStore) : Page → Type 0 where
  here : Reach s c (opened c)
  used :
      {p : Page}
      → Reach s c p
      → (clusters : List ClusterEntry) (e : Event) → controls s clusters p e ≡ true
      → Reach s c (handle e p).0
  settled : {p : Page} → Reach s c p → (a : Answer) → awaits p a ≡ true → Reach s c (answered a p)
