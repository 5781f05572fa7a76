-- ===== src/Roles/Identity.antt =====
-- The role that an editor saves.
use clustervision.Base.{
  String, sym, ap, List, Option, Bool-cases, inl, inr, ◌==◌, ◌≡◌, ◌≢◌, refl, ◌∙◌, true, [], ◌∷◌,
  none, some, eq_iff, trim, if◌then◌else◌, arith,
}
use clustervision.Yaml.{PolicyRule}
use clustervision.Roles.{
  RoleRead, Props, Editor, on_save, start, close_import, handle_import_yaml, rules_parsed,
  parse_failed, handle_save,
}
use clustervision.Roles.Controls.{
  Event, set_name, set_namespace, toggle_import, handle, controls, Step, control, parsed, refused,
  Reach, here, then_,
}

-- Two states with one name and one namespace.
record SameRole (s t : Editor) : Type 0 where
  pub name : t.name ≡ s.name
  pub namespace : t.namespace ≡ s.namespace

handle-SameRole :
    (p : Props) (r : RoleRead) (e : Event) (s : Editor)
    → p.role ≡ some r
    → p.copy_from ≡ none
    → controls p s e ≡ true
    → SameRole s (handle p e s).0
unfolding handle controls handle_import_yaml handle_save close_import
handle-SameRole p r (set_name v) s edit no_copy on = ground arith
handle-SameRole p r (set_namespace v) s edit no_copy on = ground arith
handle-SameRole p r toggle_import s edit no_copy on = ground arith
handle-SameRole p r _ s edit no_copy on = record { name = refl; namespace = refl }

Step-SameRole :
    {p : Props} {s t : Editor} (r : RoleRead)
    → p.role ≡ some r
    → p.copy_from ≡ none
    → Step p s t
    → SameRole s t
unfolding rules_parsed parse_failed close_import
Step-SameRole {p} {s} r edit no_copy (control e on) = handle-SameRole p r e s edit no_copy on
Step-SameRole r edit no_copy (parsed rs w) = record { name = refl; namespace = refl }
Step-SameRole r edit no_copy (refused none w) = record { name = refl; namespace = refl }
Step-SameRole r edit no_copy (refused (some e) w) = record { name = refl; namespace = refl }

Reach-SameRole :
    {p : Props} {s t : Editor} (r : RoleRead)
    → p.role ≡ some r
    → p.copy_from ≡ none
    → Reach p s t
    → SameRole s t
Reach-SameRole r edit no_copy here = record { name = refl; namespace = refl }
Reach-SameRole r edit no_copy (then_ reach st) =
    let before = Reach-SameRole r edit no_copy reach in
    let now = Step-SameRole r edit no_copy st in
    record { name = now.name ∙ before.name; namespace = now.namespace ∙ before.namespace }

-- However an editor is used that was opened to edit a role and not to copy one: what it saves goes
-- to that role. The name is the role's, and the namespace, where the role is not a cluster role,
-- is the one that the role has.
pub save-same_role :
    (p : Props) (r : RoleRead) (ns : String) (s : Editor)
    → p.role ≡ some r
    → p.copy_from ≡ none
    → r.namespace ≡ some ns
    → trim r.name ≢ ""
    → Reach p (start p) s
    → handle_save p s ≡ on_save (trim r.name) s.rules (if p.is_cluster then none else some ns) ∷ []
unfolding handle_save start
save-same_role p r ns s edit no_copy at given reach =
    let same = Reach-SameRole r edit no_copy reach in
    let name : s.name ≡ r.name = ground (arith, same.name) in
    let namespace : s.namespace ≡ ns = ground (arith, same.namespace) in
    rw (name, namespace) (ground (arith, eq_iff (trim r.name) ""))

-- An editor that was opened to edit a role, and not to copy one, saves under the role's name.
pub saved-name :
    (p : Props) (r : RoleRead) (s : Editor) (name : String) (rules : List PolicyRule)
    (ns : Option String)
    → p.role ≡ some r
    → p.copy_from ≡ none
    → Reach p (start p) s
    → handle_save p s ≡ on_save name rules ns ∷ []
    → trim r.name ≡ name
unfolding handle_save start
saved-name p r s name rules ns edit no_copy reach h =
    let same = Reach-SameRole r edit no_copy reach in
    let kept : s.name ≡ r.name = ground (arith, same.name) in
    elim (Bool-cases (trim s.name == "")) [
      | inl e ↦ let made = rw e at h in cc
      | inr e ↦ let made = rw e at h in sym (ap trim kept) ∙ cc
    ]
