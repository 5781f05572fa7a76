-- ===== src/Rbac/Editable.antt =====
-- Which roles the page changes.
use clustervision.Base.{
  String, ◌≡◌, ◌≢◌, refl, Bool, true, false, List, [], ◌∷◌, Option, none, some, All, trim, arith,
  get_or, Bool-cases, inl, inr, if◌then◌else◌,
}
use clustervision.Yaml.{PolicyRule}
use clustervision.Auth.{AuthStore, can_write}
use clustervision.Roles
use clustervision.Roles.{RoleRead, Editor, start, on_save}
use clustervision.Roles.Controls
use clustervision.Roles.Identity.{save-same_role, saved-name}
use clustervision.Rbac.{
  Page, Effect, ask_update_cluster_role, ask_update_role, ask_delete_cluster_role, ask_delete_role,
  refetch, handle_save, delete_of, confirm_delete, editor_props, from_editor, Event, click_create,
  click_edit, click_copy, click_delete, confirmed, from, controls, handle, Answer, saved, deleted,
  answered, Reach, here, used, settled,
}

-- A role that is not of the system, for a user who may write.
abbrev pub Editable : AuthStore → String → RoleRead → Type 0
Editable s c r = (r.is_system ≡ false) × (can_write s c ≡ true)

abbrev Edits : AuthStore → String → Option RoleRead → Option RoleRead → Type 0
Edits s c none copy = Unit
Edits s c (some r) copy = (r.is_system ≡ false) × (copy ≡ none)

abbrev Open : AuthStore → String → Bool → Type 0
Open s c false = Unit
Open s c true = can_write s c ≡ true

abbrev Deletes : AuthStore → String → Option (RoleRead × Bool) → Type 0
Deletes s c none = Unit
Deletes s c (some (r, k)) = Editable s c r

abbrev Inv : AuthStore → String → Page → Type 0
Inv s c p =
    Edits s c p.modal.role p.modal.copy_from × Open s c p.modal.shown × Deletes s c p.delete_target

-- What an editor saves was made by the editor that the page has opened.
abbrev Made : Page → Event → Type 0
Made p (from (on_save name rules ns)) =
    (namespaces : List String) × (ed : Editor) × Controls.Reach (editor_props p namespaces)
      (start (editor_props p namespaces)) ed
    × (Roles.handle_save (editor_props p namespaces) ed ≡ on_save name rules ns ∷ [])
Made p _ = Unit

-- What may be asked of the backend: of the role that the dialog shows, or that the editor was
-- opened for.
abbrev pub Allowed : AuthStore → String → Page → Effect → Type 0
Allowed s c p (ask_delete_cluster_role name) =
    (r : RoleRead) × (p.delete_target ≡ some (r, true)) × (r.name ≡ name) × Editable s c r
Allowed s c p (ask_delete_role ns name) =
    (r : RoleRead) × (p.delete_target ≡ some (r, false))
    × (r.name ≡ name)
    × (get_or r.namespace p.namespace ≡ ns)
    × Editable s c r
Allowed s c p (ask_update_cluster_role name rules) =
    (r : RoleRead) × (p.modal.role ≡ some r)
    × (trim r.name ≡ name)
    × (p.modal.is_cluster ≡ true)
    × Editable s c r
Allowed s c p (ask_update_role ns name rules) =
    (r : RoleRead) × (p.modal.role ≡ some r)
    × (trim r.name ≡ name)
    × (p.modal.is_cluster ≡ false)
    × Editable s c r
Allowed s c p refetch = Unit
Allowed s c p _ = can_write s c ≡ true

module _ (s : AuthStore) (c : String) (p : Page) where
  writes : p.modal.shown ≡ true → Inv s c p → can_write s c ≡ true
  writes e v = by_open p.modal.shown e v.1
    where
      by_open : (b : Bool) → b ≡ true → Open s c b → can_write s c ≡ true
      by_open true e o = o
      by_open false e o = cc

  from_editor-Inv : (e : Roles.Effect) → Inv s c p → Inv s c (from_editor p e).0
  unfolding from_editor
  from_editor-Inv (on_save name rules ns) v = v
  from_editor-Inv (Roles.parse_rules text) v = v
  from_editor-Inv Roles.on_close v = (tt, tt, v.2)

  confirm_delete-Inv : (o : Option (RoleRead × Bool)) → Inv s c p → Inv s c (confirm_delete p o).0
  unfolding confirm_delete
  confirm_delete-Inv none v = v
  confirm_delete-Inv (some (r, k)) v = (v.0, v.1, tt)

  handle-Inv : (e : Event) → controls s c p e ≡ true → Inv s c p → Inv s c (handle e p).0
  unfolding handle controls
  handle-Inv (click_create k) on v = (tt, ground arith, v.2)
  handle-Inv (click_edit r k) on v = ((ground arith, refl), ground arith, v.2)
  handle-Inv (click_copy r k) on v = (tt, ground arith, v.2)
  handle-Inv (click_delete r k) on v = (v.0, v.1, (ground arith, ground arith))
  handle-Inv Event.cancel_delete on v = (v.0, v.1, tt)
  handle-Inv confirmed on v = confirm_delete-Inv p.delete_target v
  handle-Inv (from e) on v = from_editor-Inv e v
  handle-Inv _ on v = v

  answered-Inv : (a : Answer) → Inv s c p → Inv s c (answered a p)
  unfolding answered
  answered-Inv (saved true) v = (tt, tt, v.2)
  answered-Inv (saved false) v = v
  answered-Inv (deleted ok) v = v

  confirm_delete-Allowed :
      (o : Option (RoleRead × Bool))
      → p.delete_target ≡ o
      → Deletes s c o
      → All (Allowed s c p) (confirm_delete p o).1
  unfolding confirm_delete delete_of
  confirm_delete-Allowed none e d = tt
  confirm_delete-Allowed (some (r, true)) e d = ((r, e, refl, d), tt)
  confirm_delete-Allowed (some (r, false)) e d = ((r, e, refl, refl, d), tt)

  save-Allowed :
      (name : String) (rules : List PolicyRule) (ns : Option String) (o : Option RoleRead)
      → p.modal.role ≡ o
      → Edits s c o p.modal.copy_from
      → can_write s c ≡ true
      → Made p (from (on_save name rules ns))
      → Allowed s c p (handle_save p name rules ns)
  unfolding handle_save editor_props
  save-Allowed name rules ns none e d w made = elim (Bool-cases p.modal.is_cluster) [
    | inl k ↦ simp (k, e) w
    | inr k ↦ simp (k, e) w
  ]
  save-Allowed name rules ns (some r) e d w (nss, ed, reach, h) =
      let same = saved-name (editor_props p nss) r ed name rules ns e d.1 reach h in
      elim (Bool-cases p.modal.is_cluster) [
        | inl k ↦ simp (k, e) (r, refl, same, refl, (d.0, w))
        | inr k ↦ simp (k, e) (r, refl, same, refl, (d.0, w))
      ]

  from_editor-Allowed :
      (e : Roles.Effect)
      → Made p (from e)
      → can_write s c ≡ true
      → Inv s c p
      → All (Allowed s c p) (from_editor p e).1
  unfolding from_editor
  from_editor-Allowed (on_save name rules ns) made w v =
      (save-Allowed name rules ns p.modal.role refl v.0 w made, tt)
  from_editor-Allowed (Roles.parse_rules text) made w v = tt
  from_editor-Allowed Roles.on_close made w v = tt

  handle-Allowed :
      (e : Event)
      → controls s c p e ≡ true
      → Made p e
      → Inv s c p
      → All (Allowed s c p) (handle e p).1
  unfolding handle controls from_editor
  handle-Allowed confirmed on made v = confirm_delete-Allowed p.delete_target refl v.2
  handle-Allowed (from (on_save name rules ns)) on made v =
      from_editor-Allowed (on_save name rules ns) made (writes (ground arith) v) v
  handle-Allowed (from (Roles.parse_rules text)) on made v = tt
  handle-Allowed (from Roles.on_close) on made v = tt
  handle-Allowed Event.refresh on made v = (tt, tt)
  handle-Allowed _ on made v = tt

Reach-Inv : {s : AuthStore} {c : String} {p : Page} → Reach s c p → Inv s c p
Reach-Inv here = (tt, tt, tt)
Reach-Inv {s} {c} (used {p} r e on) = handle-Inv s c p e on (Reach-Inv r)
Reach-Inv {s} {c} (settled {p} r a w) = answered-Inv s c p a (Reach-Inv r)

-- However the page is used in a session on one cluster, where what an editor saves was made by an
-- editor that the page has opened: a role is created, changed or deleted only by a user who may
-- write on the cluster; what is changed has the trimmed name and the kind of the role that the
-- editor was opened for; what is deleted is the role that the dialog shows, of its kind, in its own
-- namespace, or in that of the page if it has none; and no role of the system is changed or deleted.
pub Reach-Editable :
    {s : AuthStore} {c : String} {p : Page}
    → Reach s c p
    → (e : Event) → controls s c p e ≡ true
    → Made p e
    → All (Allowed s c p) (handle e p).1
Reach-Editable {s} {c} {p} r e on made = handle-Allowed s c p e on made (Reach-Inv r)

-- What the page asks for when an editor saves that was opened to edit a role, however the editor
-- was used: to change that role and no other, in the namespace that the role has.
pub update-same_role :
    (p : Page) (namespaces : List String) (r : RoleRead) (ns : String) (ed : Editor)
    → p.modal.role ≡ some r
    → p.modal.copy_from ≡ none
    → r.namespace ≡ some ns
    → trim r.name ≢ ""
    → let props = editor_props p namespaces in
      Controls.Reach props (start props) ed
      → (e : Roles.Effect) × (Roles.handle_save props ed ≡ e ∷ [])
        × ((from_editor p e).1
            ≡ (if p.modal.is_cluster
                then ask_update_cluster_role (trim r.name) ed.rules
                else ask_update_role ns (trim r.name) ed.rules)
              ∷ [])
unfolding from_editor editor_props handle_save
update-same_role p namespaces r ns ed edit no_copy has given reach =
    let props = editor_props p namespaces in
    let saves = save-same_role props r ns ed edit no_copy has given reach in
    (
      on_save (trim r.name) ed.rules (if p.modal.is_cluster then none else some ns),
      saves,
      elim (Bool-cases p.modal.is_cluster) [ inl k ↦ simp (k, edit) | inr k ↦ simp (k, edit) ],
    )
