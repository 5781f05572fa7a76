-- ===== src/Requests/Submitting.antt =====
-- What the form submits.
use clustervision.Base.{
  String, ◌≡◌, ◌≢◌, refl, ap, true, false, List, [], ◌∷◌, none, some, ◌==◌, eq_iff, trim, find,
  Option-cases, inl, inr, arith,
}
use clustervision.Types.{RoleKind, cluster_role, namespaced_role, User, AccessRequestCreatePayload}
use clustervision.Requests.{
  cluster, namespace, Form, user_key, target_of, role_option, can_submit, chosen_role, payload,
  handle_submit, set_scope, handle,
}
use clustervision.Requests.Split.{is_single, split_colons-role_option}

chosen_role-option :
    (kind : RoleKind) (name : String) (f : Form)
    → f.role_value ≡ role_option kind name
    → is_single false name ≡ true
    → chosen_role f ≡ (kind, name)
unfolding chosen_role
chosen_role-option cluster_role name f e h =
    rw (e, split_colons-role_option cluster_role name h) refl
chosen_role-option namespaced_role name f e h =
    rw (e, split_colons-role_option namespaced_role name h) refl

find-user_key :
    (users : List User) (k : String) (u : User)
    → find (λ v. user_key v == k) users ≡ some u
    → user_key u ≡ k
find-user_key [] k u h = cc
find-user_key (v ∷ users) k u h =
    ground (arith, find-user_key users k u, eq_iff (user_key v) k, eq_iff (user_key u) k)

-- The payload of a form that can be submitted.
pub record Submitted (f : Form) (u : User) (p : AccessRequestCreatePayload) : Type 0 where
  pub target : p.target_username ≡ u.name
  pub key : user_key u ≡ f.target_key
  pub reason : p.reason ≢ ""
  pub whole_cluster : f.scope ≡ cluster → p.namespace ≡ none
  pub one_namespace : f.scope ≡ namespace → (p.namespace ≡ some f.namespace) × (f.namespace ≢ "")

payload-Submitted :
    (users : List User) (f : Form) (u : User)
    → target_of users f ≡ some u
    → can_submit users f ≡ true
    → Submitted f u (payload u f)
unfolding payload can_submit target_of
payload-Submitted users f u t c = record {
  target = refl;
  key = find-user_key users f.target_key u t;
  reason = λ e. ground (arith, eq_iff (trim f.reason) "");
  whole_cluster = λ e. rw e refl;
  one_namespace = λ e. (rw e refl, λ k. ground (arith, eq_iff f.namespace ""));
}

handle_submit-some :
    (users : List User) (f : Form)
    → can_submit users f ≡ true
    → (u : User) × (target_of users f ≡ some u) × (handle_submit users f ≡ some (payload u f))
unfolding handle_submit can_submit
handle_submit-some users f c = elim (Option-cases (target_of users f)) [
  | inl e ↦ let k = rw (e, can_submit) at c in cc
  | inr (u, e) ↦ (u, e, rw (c, e, handle_submit) refl)
]

still_submits :
    (users : List User) (f : Form)
    → can_submit users f ≡ true
    → can_submit users (record f { scope = cluster }) ≡ true
unfolding can_submit target_of
still_submits users f c = ground arith

-- A form that can be submitted, with a role chosen from the list whose name has no two colons side
-- by side: the request is sent, for a listed user with the chosen key, for the kind and the name of
-- that role, with a reason, for the chosen namespace or without one where the scope is the cluster.
pub handle_submit-faithful :
    (users : List User) (f : Form) (kind : RoleKind) (name : String)
    → can_submit users f ≡ true
    → f.role_value ≡ role_option kind name
    → is_single false name ≡ true
    → (u : User) × (p : AccessRequestCreatePayload) × (handle_submit users f ≡ some p)
      × Submitted f u p
      × (p.role_kind ≡ kind)
      × (p.role_name ≡ name)
unfolding payload
handle_submit-faithful users f kind name c e h =
    let (u, t, sent) = handle_submit-some users f c in
    let role = chosen_role-option kind name f e h in
    (u, payload u f, sent, payload-Submitted users f u t c, ap (λ r. r.0) role, ap (λ r. r.1) role)

-- A form that can be submitted, with a namespaced role whose name has no two colons side by side,
-- and is then switched to the whole cluster: it can still be submitted, and the request is for that
-- namespaced role without a namespace.
pub switch_to_cluster :
    (users : List User) (f : Form) (name : String)
    → can_submit users f ≡ true
    → f.role_value ≡ role_option namespaced_role name
    → is_single false name ≡ true
    → (p : AccessRequestCreatePayload) × (handle_submit users (handle (set_scope cluster) f)
        ≡ some p)
      × (p.role_kind ≡ namespaced_role)
      × (p.role_name ≡ name)
      × (p.namespace ≡ none)
unfolding handle
switch_to_cluster users f name c e h =
    let g : Form = record f { scope = cluster } in
    let (u, p, sent, s, kind, named) =
      handle_submit-faithful users g namespaced_role name (still_submits users f c) e h in
    (p, sent, kind, named, s.whole_cluster refl)
