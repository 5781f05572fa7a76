-- ===== src/Admin/Assignments.antt =====
-- frontend/src/components/admin/ScopeRolesModal.tsx: the roles of an account. The scopes and the
-- roles are what the hooks return; texts and styles are left out.
use clustervision.Base.{
  String, ◌≡◌, ◌⊎◌, inl, inr, ◌≢◌, refl, sym, ◌∙◌, Bool, true, false, not, ◌&&◌, List, [], ◌∷◌, map,
  filter, ◌==◌, includes, eq_iff, Bool-cases, arith, if◌then◌else◌,
}
use clustervision.Auth.{RoleName, viewer, instance_scope}

-- api/permissions.ts
pub record ScopeRole : Type 0 where
  pub scope : String
  pub role : RoleName

pub record Dialog : Type 0 where
  pub scope : String
  pub role : RoleName
  pub saving : Bool

abbrev pub opened : Dialog
opened = record { scope = ""; role = viewer; saving = false }

-- `scopeLabel`
unfoldable scope_label : String → String
scope_label scope = if scope == instance_scope then "Instance settings" else scope

-- `new Set(roles.map(r => r.scope))`
abbrev pub assigned_scopes : List ScopeRole → List String
assigned_scopes roles = map (λ r. r.scope) roles

unfoldable available_scopes : List String → List ScopeRole → List String
available_scopes scopes roles = filter (λ s. not (includes (assigned_scopes roles) s)) scopes

abbrev first : List String → String
first [] = ""
first (s ∷ ss) = s

-- `scope || availableScopes[0] || ''`
unfoldable pub effective_scope : List String → List ScopeRole → Dialog → String
unfolding available_scopes
effective_scope scopes roles d =
    if d.scope == "" then first (available_scopes scopes roles) else d.scope

pub data Event : Type 0 where
  set_scope : String → Event
  set_role : RoleName → Event
  submit : Event
  remove : String → Event

-- The options of the list of scopes are all scopes, with their labels.
unfoldable scope_options : List String → List (String × String)
unfolding scope_label
scope_options scopes = map (λ s. (s, scope_label s)) scopes

-- The controls; a role is removed by the button of its row.
unfoldable pub controls : List String → List ScopeRole → Dialog → Event → Bool
unfolding effective_scope
controls scopes roles d (set_scope s) = includes scopes s
controls scopes roles d (set_role r) = true
controls scopes roles d submit = not (effective_scope scopes roles d == "") && not d.saving
controls scopes roles d (remove s) = includes (assigned_scopes roles) s

pub data Effect : Type 0 where
  ask_set : String → RoleName → Effect
  ask_remove : String → Effect

-- `handleSubmit`
unfoldable pub handle_submit : List String → List ScopeRole → Dialog → Dialog × List Effect
handle_submit scopes roles d =
    let scope = effective_scope scopes roles d in
    if scope == "" then (d, []) else (record d { saving = true }, ask_set scope d.role ∷ [])

unfoldable pub handle : List String → List ScopeRole → Event → Dialog → Dialog × List Effect
unfolding handle_submit
handle scopes roles (set_scope s) d = (record d { scope = s }, [])
handle scopes roles (set_role r) d = (record d { role = r }, [])
handle scopes roles submit d = handle_submit scopes roles d
handle scopes roles (remove s) d = (d, ask_remove s ∷ [])

-- The answer of the mutation: `setScope('')` on success.
unfoldable pub saved : Bool → Dialog → Dialog
saved ok d = record d { saving = false; scope = if ok then "" else d.scope }

-- The first text that passes a test is one of the list.
first-filter :
    (p : String → Bool) (ss : List String)
    → (first (filter p ss) == "") ≡ false
    → (includes ss (first (filter p ss)) ≡ true) × (p (first (filter p ss)) ≡ true)
first-filter p [] h = absurd (ff h)
  where
    ff : ("" == "") ≡ false → ⊥
    ff k = cc
first-filter p (s ∷ ss) h = elim (Bool-cases (p s)) [
  | inl e ↦ rw e (ground (arith, eq_iff s s), e)
  | inr e ↦ let (i, q) = first-filter p ss (rw e at h) in rw e (ground arith, q)
]

head_given :
    (t : String) (ss : List String)
    → includes (t ∷ ss) "" ≡ false
    → (t ≢ "") × (includes ss "" ≡ false)
head_given t ss h = (ground (arith, eq_iff t ""), ground arith)

-- If there is none, no text of the list passes, as long as none is empty.
first-none :
    (p : String → Bool) (ss : List String)
    → includes ss "" ≡ false
    → first (filter p ss) ≡ ""
    → (s : String) → includes ss s ≡ true
    → p s ≡ false
first-none p [] given h s i = absurd (ff i)
  where
    ff : false ≡ true → ⊥
    ff k = cc
first-none p (t ∷ ss) given h s i = elim (Bool-cases (p t)) [
  | inl e ↦ absurd ((head_given t ss given).0 (rw e at h))
  | inr e ↦ elim (Bool-cases (t == s)) [
    | inl same ↦ rw (← the_same same) e
    | inr other ↦ first-none p ss (head_given t ss given).1 (rw e at h) s (rw other at i)
  ]
]
  where
    the_same : (t == s) ≡ true → t ≡ s
    the_same k = ground (arith, eq_iff t s)

taken : (b : Bool) → not b ≡ false → b ≡ true
taken true e = refl
taken false e = sym e

not_taken : (b : Bool) → not b ≡ true → b ≡ false
not_taken true e = sym e
not_taken false e = refl

module _ (scopes : List String) (roles : List ScopeRole) (d : Dialog) where
  default_scope :
      (d.scope == "") ≡ true
      → effective_scope scopes roles d ≡ first (available_scopes scopes roles)
  unfolding effective_scope
  default_scope e = rw (e, effective_scope) refl

  chosen_scope : (d.scope == "") ≡ false → effective_scope scopes roles d ≡ d.scope
  unfolding effective_scope
  chosen_scope e = rw (e, effective_scope) refl

  asks_nothing : effective_scope scopes roles d ≡ "" → (handle_submit scopes roles d).1 ≡ []
  unfolding handle_submit
  asks_nothing e = rw (e, handle_submit) refl

  asks_for :
      (s : String)
      → effective_scope scopes roles d ≡ s
      → (s == "") ≡ false
      → (handle_submit scopes roles d).1 ≡ ask_set s d.role ∷ []
  unfolding handle_submit
  asks_for s e given = rw (e, given, handle_submit) refl

-- What the button to save asks for: the role that is chosen, on the scope that was chosen; if none
-- was, on a listed scope on which the account has no role yet, so that no role is overwritten
-- unasked. It asks for nothing only if no scope was chosen and the account has a role on every
-- listed scope, where the list has no empty name.
pub handle_submit-outcome :
    (scopes : List String) (roles : List ScopeRole) (d : Dialog)
    → includes scopes "" ≡ false
    → (((handle_submit scopes roles d).1 ≡ [])
        × (d.scope ≡ "")
        × ((s : String) → includes scopes s ≡ true → includes (assigned_scopes roles) s ≡ true))
      ⊎ ((s : String) × ((handle_submit scopes roles d).1 ≡ ask_set s d.role ∷ [])
          × ((d.scope ≡ s)
              ⊎ ((includes scopes s ≡ true) × (includes (assigned_scopes roles) s ≡ false))))
unfolding available_scopes
handle_submit-outcome scopes roles d given = elim (Bool-cases (d.scope == "")) [
  | inr chosen ↦ inr (
    d.scope,
    asks_for scopes roles d d.scope (chosen_scope scopes roles d chosen) chosen,
    inl refl,
  )
  | inl unchosen ↦
      let free : String → Bool = λ s. not (includes (assigned_scopes roles) s) in
      let default = first (filter free scopes) in
      let e : effective_scope scopes roles d ≡ default = default_scope scopes roles d unchosen in
      elim (Bool-cases (default == "")) [
        | inl no_default ↦
            let empty : default ≡ "" = ground (arith, eq_iff default "") in
            inl (
              asks_nothing scopes roles d (e ∙ empty),
              ground (arith, eq_iff d.scope ""),
              λ s i.
                  taken (includes (assigned_scopes roles) s)
                    (first-none free scopes given empty s i),
            )
        | inr given_default ↦
            let (listed, is_free) = first-filter free scopes given_default in
            inr (
              default,
              asks_for scopes roles d default e given_default,
              inr (listed, not_taken (includes (assigned_scopes roles) default) is_free),
            )
      ]
]
