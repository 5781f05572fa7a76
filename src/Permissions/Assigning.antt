-- ===== src/Permissions/Assigning.antt =====
-- Which role the form assigns, and where.
use clustervision.Base.{
  String, ◌≡◌, ◌≢◌, ◌⊎◌, inl, inr, refl, sym, ap, ◌∙◌, true, false, not, ◌&&◌, List, [], ◌∷◌, ◌++◌,
  some, ◌==◌, includes, All, arith, eq_iff, Bool-cases, includes-append,
}
use clustervision.Types.{RoleKind, cluster_role, namespaced_role, role_kind_text}
use clustervision.Hooks.Rbac.{AssignRoleArgs}
use clustervision.Requests.{options_of, first_two, split_from, split_colons, role_option}
use clustervision.Requests.Split.{is_single, split_colons-role_option}
use clustervision.Permissions.{
  Scope, cluster, namespace, Props, Panel, opened, is_namespace, role_options, namespace_of,
  assignment, kind_of, sa_of, ask_assign, handle_assign, Event, toggle_assign, click_add, set_scope,
  set_namespace, set_role, click_revoke, answered, controls, handle,
}

-- No name has two colons side by side.
abbrev Single : String → Type 0
Single name = is_single false name ≡ true

-- One use of the panel; the lists may be others at every step.
pub data Reach (props : Props) : Panel → Type 0 where
  here : Reach props opened
  then_ :
      {p : Panel}
      → Reach props p
      → (namespaces ns_roles cluster_roles : List String) → All Single ns_roles
      → All Single cluster_roles
      → (e : Event) → controls props namespaces ns_roles cluster_roles p e ≡ true
      → Reach props (handle props e p).0

-- The selected role is none, or one that the list offered for the scope and the namespace.
abbrev Offered : Scope → String → String → Type 0
Offered s ns r =
    (r ≡ "")
    ⊎ ((kind : RoleKind) × (name : String) × (r ≡ role_option kind name)
        × Single name
        × (kind ≡ namespaced_role → (s ≡ namespace) × (ns ≢ "")))

-- An entry of the options is the value of one of the names.
options-role_option :
    (kind : RoleKind) (names : List String) (r : String)
    → All Single names
    → includes (options_of kind names) r ≡ true
    → (name : String) × (r ≡ role_option kind name) × Single name
options-role_option kind [] r h e = cc
options-role_option kind (n ∷ ns) r (h, hs) e = elim (Bool-cases (role_option kind n == r)) [
  | inl same ↦ (n, ground (arith, eq_iff (role_option kind n) r), h)
  | inr other ↦ options-role_option kind ns r hs (rw other at e)
]

in_namespace :
    (s : Scope) (ns : String)
    → (is_namespace s && not (ns == "")) ≡ true
    → (s ≡ namespace) × (ns ≢ "")
in_namespace namespace ns e = (refl, ground (arith, eq_iff ns ""))
in_namespace cluster ns e = cc

later_part :
    (xs ys : List String) (r : String)
    → includes xs r ≡ false
    → includes (xs ++ ys) r ≡ true
    → includes ys r ≡ true
later_part xs ys r h e = ground (arith, includes-append xs ys r)

offered :
    (p : Panel) (ns_roles cluster_roles : List String) (r : String)
    → All Single ns_roles
    → All Single cluster_roles
    → includes (role_options ns_roles cluster_roles p) r ≡ true
    → Offered p.scope p.selected_ns r
unfolding role_options
offered p ns_roles cluster_roles r h k e =
    elim (Bool-cases (is_namespace p.scope && not (p.selected_ns == ""))) [
      | inr wide ↦
          let (name, same, single) =
            options-role_option cluster_role cluster_roles r k (rw wide at e) in
          inr (cluster_role, name, same, single, λ n. cc)
      | inl given ↦ elim (Bool-cases (includes (options_of namespaced_role ns_roles) r)) [
        | inl ns ↦
            let (name, same, single) = options-role_option namespaced_role ns_roles r h ns in
            inr (namespaced_role, name, same, single, λ n. in_namespace p.scope p.selected_ns given)
        | inr other ↦
            let (name, same, single) = options-role_option cluster_role cluster_roles r k (
              later_part (options_of namespaced_role ns_roles)
                (options_of cluster_role cluster_roles) r other (rw given at e)) in
            inr (cluster_role, name, same, single, λ n. cc)
      ]
    ]

module _ (props : Props) where
  assign-Offered :
      (p : Panel)
      → Offered p.scope p.selected_ns p.selected_role
      → let q = (handle_assign props p).0 in Offered q.scope q.selected_ns q.selected_role
  unfolding handle_assign
  assign-Offered p v = elim (Bool-cases (p.selected_role == "")) [ inl e ↦ rw e v | inr e ↦ rw e v ]

  handle-Offered :
      (p : Panel) (namespaces ns_roles cluster_roles : List String)
      → All Single ns_roles
      → All Single cluster_roles
      → (e : Event) → controls props namespaces ns_roles cluster_roles p e ≡ true
      → Offered p.scope p.selected_ns p.selected_role
      → let q = (handle props e p).0 in Offered q.scope q.selected_ns q.selected_role
  unfolding handle controls
  handle-Offered p nss rs cs h k (set_scope s) on v = inl refl
  handle-Offered p nss rs cs h k (set_namespace ns) on v = inl refl
  handle-Offered p nss rs cs h k (set_role r) on v = elim (Bool-cases ("" == r)) [
    | inl e ↦ inl (ground (arith, eq_iff "" r))
    | inr e ↦ offered p rs cs r h k (ground arith)
  ]
  handle-Offered p nss rs cs h k (answered true) on v = inl refl
  handle-Offered p nss rs cs h k (answered false) on v = v
  handle-Offered p nss rs cs h k click_add on v = assign-Offered p v
  handle-Offered p nss rs cs h k toggle_assign on v = v
  handle-Offered p nss rs cs h k (click_revoke b) on v = v

Reach-Offered :
    {props : Props} {p : Panel} → Reach props p → Offered p.scope p.selected_ns p.selected_role
Reach-Offered here = inl refl
Reach-Offered {props} (then_ {p} r nss rs cs h k e on) =
    handle-Offered props p nss rs cs h k e on (Reach-Offered r)

-- The assignment of a role in the scope that is shown.
abbrev pub assigned : Props → Panel → RoleKind → String → AssignRoleArgs
assigned props p kind name = record {
  payload = record {
    role_name = name;
    role_kind = kind;
    namespace = namespace_of p.scope p.selected_ns;
  };
  kind = some (kind_of props.user_type);
  sa_namespace = sa_of props.user_type props.user_namespace;
}

read_back :
    (kind : RoleKind) (name : String) → first_two (role_kind_text kind ∷ name ∷ []) ≡ (kind, name)
read_back cluster_role name = refl
read_back namespaced_role name = refl

asks_for :
    (props : Props) (p : Panel) (kind : RoleKind) (name : String)
    → (p.selected_role == "") ≡ false
    → first_two (split_colons p.selected_role) ≡ (kind, name)
    → (handle_assign props p).1 ≡ ask_assign (assigned props p kind name) ∷ []
unfolding handle_assign assignment
asks_for props p kind name given parsed =
    rw (given, handle_assign) (ap (λ q. ask_assign (assigned props p q.0 q.1) ∷ []) parsed)

-- However the panel is used, where no name of a role has two colons side by side: with a role
-- selected, the button asks to assign exactly the role that the list offered, by its kind and its
-- name, in the scope that is shown; a namespaced role is assigned only in a namespace with a name.
pub Reach-Assigns :
    {props : Props} {p : Panel}
    → Reach props p
    → p.selected_role ≢ ""
    → (kind : RoleKind) × (name : String) × (p.selected_role ≡ role_option kind name)
      × ((handle props click_add p).1 ≡ ask_assign (assigned props p kind name) ∷ [])
      × (kind ≡ namespaced_role → (p.scope ≡ namespace) × (p.selected_ns ≢ ""))
unfolding handle
Reach-Assigns {props} {p} r given = elim (Reach-Offered r) [
  | inl none_selected ↦ absurd (given none_selected)
  | inr (kind, name, same, single, where_it_is) ↦ (
    kind,
    name,
    same,
    asks_for props p kind name (ground (arith, eq_iff p.selected_role "")) (
        ap (λ v. first_two (split_colons v)) same
        ∙ ap first_two (split_colons-role_option kind name single)
        ∙ read_back kind name),
    where_it_is,
  )
]

split_colons-empty : split_colons "" ≡ "" ∷ []
unfolding split_colons split_from
split_colons-empty = refl

option-given :
    (kind : RoleKind) (name : String) → Single name → (role_option kind name == "") ≡ false
option-given kind name single = elim (Bool-cases (role_option kind name == "")) [
  | inr e ↦ e
  | inl e ↦
      let empty : role_option kind name ≡ "" = ground (arith, eq_iff (role_option kind name) "") in
      absurd (
        one_part (
          sym (split_colons-role_option kind name single)
          ∙ ap split_colons empty
          ∙ split_colons-empty))
]
  where
    one_part : role_kind_text kind ∷ name ∷ [] ≡ "" ∷ [] → ⊥
    one_part k = cc

-- With the scope of a namespace and none chosen, a cluster role can be selected and the button is
-- enabled: it asks for an assignment in the namespace with the empty name.
namespace_left_out :
    (props : Props) (name : String)
    → props.can_write ≡ true
    → Single name
    → (p : Panel) × Reach props p
      × (controls props [] [] (name ∷ []) p click_add ≡ true)
      × ((handle props click_add p).1 ≡ ask_assign (assigned props p cluster_role name) ∷ [])
      × (namespace_of p.scope p.selected_ns ≡ some "")
unfolding handle controls role_options
namespace_left_out props name write single =
    let offers : includes ("" ∷ options_of cluster_role (name ∷ [])) (role_option cluster_role name)
        ≡ true =
      ground (arith, eq_iff (role_option cluster_role name) (role_option cluster_role name)) in
    let given = option-given cluster_role name single in
    (
      record opened {
        show_assign = true;
        scope = namespace;
        selected_role = role_option cluster_role name;
      },
      then_
          (then_ (then_ here [] [] [] tt tt toggle_assign write) [] [] [] tt tt
            (set_scope namespace) refl)
          [] [] (name ∷ []) tt (single, tt) (set_role (role_option cluster_role name)) offers,
      rw given refl,
      asks_for props
          (record opened {
            show_assign = true;
            scope = namespace;
            selected_role = role_option cluster_role name;
          })
          cluster_role name given
          (ap first_two (split_colons-role_option cluster_role name single)
            ∙ read_back cluster_role name),
      refl,
    )
