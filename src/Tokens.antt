-- ===== src/Tokens.antt =====
-- frontend/src/pages/TokensPage.tsx: the history of the generated kubeconfigs, and the tokens of the
-- service accounts. The texts, dates and styles of the cells are left out.
pub mod Confirming
mod Tests
use clustervision.Base.{
  String, ◌≡◌, Bool, true, false, not, ◌&&◌, List, [], ◌∷◌, Option, none, some, ◌==◌, is_some,
  is_empty, any, if◌then◌else◌,
}
use clustervision.Auth.{AuthStore, can_write}
use clustervision.Api.{Call}
use clustervision.Api.Users.{delete_history_entry, clear_history, revoke_sa_token, rotate_sa_token}

pub record TokenHistoryEntry : Type 0 where
  pub id : String
  pub user : String
  pub user_type : String
  pub namespace : String
  pub generated_at : String

pub record SaTokenInfo : Type 0 where
  pub secret_name : String
  pub sa_name : String
  pub namespace : String
  pub created_at : Option String
  pub token_present : Bool

pub data Tab : Type 0 where
  history_tab sa_tab : Tab

-- A mutation that is pending is `deleting` and so on.
pub record Page : Type 0 where
  pub tab : Tab
  pub clear_confirm : Bool
  pub revoke_target : Option SaTokenInfo
  pub rotate_target : Option SaTokenInfo
  pub delete_target : Option TokenHistoryEntry
  pub clearing : Bool
  pub revoking : Bool
  pub rotating : Bool
  pub deleting : Bool

abbrev pub opened : Page
opened = record {
  tab = history_tab;
  clear_confirm = false;
  revoke_target = none;
  rotate_target = none;
  delete_target = none;
  clearing = false;
  revoking = false;
  rotating = false;
  deleting = false;
}

-- What the queries give: the lists, `[]` until there is an answer, and whether they are loading.
pub record Loaded : Type 0 where
  pub history : List TokenHistoryEntry
  pub loading_history : Bool
  pub sa_tokens : List SaTokenInfo
  pub loading_sa : Bool

-- What is asked of the mutations and of the cache.
pub data Effect : Type 0 where
  ask_delete : String → Effect
  ask_clear : Effect
  ask_revoke : String → String → Effect
  ask_rotate : String → String → String → Effect
  refetch : Effect

-- The call that an effect makes, by the hooks.
unfoldable pub call_of : Effect → Option Call
call_of (ask_delete id) = some (delete_history_entry id)
call_of ask_clear = some clear_history
call_of (ask_revoke secret ns) = some (revoke_sa_token secret ns)
call_of (ask_rotate secret sa ns) = some (rotate_sa_token secret sa ns)
call_of refetch = none

pub data Event : Type 0 where
  set_tab : Tab → Event
  refresh click_clear cancel_clear confirm_clear : Event
  click_delete : TokenHistoryEntry → Event
  cancel_delete confirm_delete : Event
  click_revoke click_rotate : SaTokenInfo → Event
  cancel_revoke confirm_revoke cancel_rotate confirm_rotate : Event

abbrev on_history : Tab → Bool
on_history history_tab = true
on_history sa_tab = false

abbrev on_sa : Tab → Bool
on_sa sa_tab = true
on_sa history_tab = false

-- The rows that a table shows: none while it is loading.
unfoldable history_rows : Loaded → List TokenHistoryEntry
history_rows d = if d.loading_history then [] else d.history

unfoldable pub sa_rows : Loaded → List SaTokenInfo
sa_rows d = if d.loading_sa then [] else d.sa_tokens

-- The entry with this id, and the token of this namespace and secret: the keys of the rows.
abbrev is_entry : TokenHistoryEntry → TokenHistoryEntry → Bool
is_entry e f = e.id == f.id

abbrev is_token : SaTokenInfo → SaTokenInfo → Bool
is_token t u = t.namespace == u.namespace && t.secret_name == u.secret_name

-- The controls; `c` is the active cluster, and `d` is what the queries give at that moment.
unfoldable pub controls : AuthStore → String → Loaded → Page → Event → Bool
unfolding history_rows sa_rows
controls s c d p click_clear = on_history p.tab && can_write s c && not (is_empty d.history)
controls s c d p (click_delete e) =
    on_history p.tab && can_write s c && any (is_entry e) (history_rows d)
controls s c d p (click_rotate t) = on_sa p.tab && can_write s c && any (is_token t) (sa_rows d)
controls s c d p (click_revoke t) = on_sa p.tab && can_write s c && any (is_token t) (sa_rows d)
controls s c d p cancel_clear = p.clear_confirm
controls s c d p confirm_clear = p.clear_confirm && not p.clearing
controls s c d p cancel_delete = is_some p.delete_target
controls s c d p confirm_delete = is_some p.delete_target && not p.deleting
controls s c d p cancel_revoke = is_some p.revoke_target
controls s c d p confirm_revoke = is_some p.revoke_target && not p.revoking
controls s c d p cancel_rotate = is_some p.rotate_target
controls s c d p confirm_rotate = is_some p.rotate_target && not p.rotating
controls s c d p (set_tab t) = true
controls s c d p refresh = true

-- The buttons of the dialogs, on the targets that the dialogs show.
unfoldable pub delete_shown : Page → Option TokenHistoryEntry → Page × List Effect
delete_shown p none = (p, [])
delete_shown p (some e) = (record p { deleting = true }, ask_delete e.id ∷ [])

unfoldable pub revoke_shown : Page → Option SaTokenInfo → Page × List Effect
revoke_shown p none = (p, [])
revoke_shown p (some t) = (record p { revoking = true }, ask_revoke t.secret_name t.namespace ∷ [])

unfoldable pub rotate_shown : Page → Option SaTokenInfo → Page × List Effect
rotate_shown p none = (p, [])
rotate_shown p (some t) =
    (record p { rotating = true }, ask_rotate t.secret_name t.sa_name t.namespace ∷ [])

unfoldable pub handle : Event → Page → Page × List Effect
unfolding delete_shown revoke_shown rotate_shown
handle (set_tab t) p = (record p { tab = t }, [])
handle refresh p = (p, refetch ∷ [])
handle click_clear p = (record p { clear_confirm = true }, [])
handle cancel_clear p = (record p { clear_confirm = false }, [])
handle confirm_clear p = (record p { clearing = true }, ask_clear ∷ [])
handle (click_delete e) p = (record p { delete_target = some e }, [])
handle cancel_delete p = (record p { delete_target = none }, [])
handle confirm_delete p = delete_shown p p.delete_target
handle (click_revoke t) p = (record p { revoke_target = some t }, [])
handle cancel_revoke p = (record p { revoke_target = none }, [])
handle confirm_revoke p = revoke_shown p p.revoke_target
handle (click_rotate t) p = (record p { rotate_target = some t }, [])
handle cancel_rotate p = (record p { rotate_target = none }, [])
handle confirm_rotate p = rotate_shown p p.rotate_target

-- The answers: a success closes the dialog of its kind, a failure leaves it open.
pub data Answer : Type 0 where
  cleared deleted revoked rotated : Bool → Answer

abbrev pub awaits : Page → Answer → Bool
awaits p (cleared ok) = p.clearing
awaits p (deleted ok) = p.deleting
awaits p (revoked ok) = p.revoking
awaits p (rotated ok) = p.rotating

unfoldable pub answered : Answer → Page → Page
answered (cleared ok) p = record p {
  clearing = false;
  clear_confirm = if ok then false else p.clear_confirm;
}
answered (deleted ok) p = record p {
  deleting = false;
  delete_target = if ok then none else p.delete_target;
}
answered (revoked ok) p = record p {
  revoking = false;
  revoke_target = if ok then none else p.revoke_target;
}
answered (rotated ok) p = record p {
  rotating = false;
  rotate_target = if ok then none else p.rotate_target;
}

-- One use of the page in a session on one cluster. `es` are the controls used so far, the last one
-- first; the queries may give other lists at every step.
pub data Reach (s : AuthStore) (c : String) : List Event → Page → Type 0 where
  here : Reach s c [] opened
  used :
      {es : List Event} {p : Page}
      → Reach s c es p
      → (d : Loaded) (e : Event) → controls s c d p e ≡ true
      → Reach s c (e ∷ es) (handle e p).0
  settled :
      {es : List Event} {p : Page}
      → Reach s c es p
      → (a : Answer) → awaits p a ≡ true
      → Reach s c es (answered a p)
