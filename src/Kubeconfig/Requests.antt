-- ===== src/Kubeconfig/Requests.antt =====
-- What the panel asks for: a kubeconfig of the user that is selected.
use clustervision.Base.{
  String, ◌≡◌, ◌⊎◌, inl, inr, refl, sym, ap, ◌∙◌, Bool, true, false, List, Option, none, some, ◌==◌,
  trim, find, All, arith, eq_iff, Bool-cases, Option-cases, is_empty, ◌||◌,
}
use mathlib.Core.Path.{subst}
use clustervision.Types.{User, KubeconfigRequest}
use clustervision.Kubeconfig.{
  Props, Panel, opened, user_key, selected_user, is_cert, is_certificate, type_is_cert,
  can_generate, request_for, sa_namespace_of, key_of, handle_generate, auto_timer, auto_generate,
  user_changed, ns_rendered, key_rendered, vault_rendered, same_bool, preselect, preselect_name,
  match_of, keyed, Event, users_loaded, vault_changed, write_changed, select_key, select_namespace,
  set_private_key, click_generate, timer_fired, answered, ask, handle, controls, Reach, here, then_,
}

-- The user, by the list and the key that is selected.
abbrev pub listed : List User → String → Option User
listed us k = find (λ u. user_key u == k) us

-- A request for the selected user and the shown namespace. The private key is that of a
-- certificate user and is not blank unless Vault is enabled; a service account has none, and is
-- named with its own namespace.
pub record RequestFor (us : List User) (k ns : String) (vault : Bool) (r : KubeconfigRequest)
    : Type 0 where
  pub user : User
  pub private_key : String
  pub selected : listed us k ≡ some user
  pub built : r ≡ record {
    username = user.name;
    user_type = user.user_type;
    namespace = ns;
    sa_namespace = sa_namespace_of user.user_type user;
    private_key_pem = key_of user.user_type private_key;
  }
  pub readable :
      is_certificate user.user_type ≡ true → (vault ≡ true) ⊎ ((trim private_key == "") ≡ false)

abbrev pub IsFor : Panel → KubeconfigRequest → Type 0
IsFor p r = RequestFor p.users p.selected_key p.namespace p.vault_enabled r

abbrev TimerFor : List User → String → String → Bool → Option KubeconfigRequest → Type 0
TimerFor us k ns vault none = Unit
TimerFor us k ns vault (some r) = RequestFor us k ns vault r

-- The refs hold the key and the namespace of the last render, and the timer asks for what is shown.
abbrev pub Inv : Panel → Type 0
Inv p =
    (p.prev_key ≡ p.selected_key)
    × (p.prev_ns ≡ p.namespace)
    × TimerFor p.users p.selected_key p.namespace p.vault_enabled p.timer

module _ (p : Panel) where
  generate-cases :
      (handle_generate p ≡ none)
      ⊎ ((u : User) × (selected_user p ≡ some u)
          × (can_generate p ≡ true)
          × (handle_generate p ≡ some (request_for p u)))
  unfolding handle_generate
  generate-cases = elim (Bool-cases (can_generate p)) [
    | inr e ↦ inl (rw (e, handle_generate) refl)
    | inl e ↦ elim (Option-cases (selected_user p)) [
      | inl n ↦ inl (rw (e, n, handle_generate) refl)
      | inr (u, f) ↦ inr (u, f, e, rw (e, f, handle_generate) refl)
    ]
  ]

  readable_key :
      (u : User)
      → selected_user p ≡ some u
      → can_generate p ≡ true
      → is_certificate u.user_type ≡ true
      → (p.vault_enabled ≡ true) ⊎ ((trim p.private_key == "") ≡ false)
  unfolding can_generate is_cert
  readable_key u f g c =
      let cert : type_is_cert (selected_user p) ≡ true = ap type_is_cert f ∙ c in ground arith

  generate-IsFor : TimerFor p.users p.selected_key p.namespace p.vault_enabled (handle_generate p)
  generate-IsFor = elim generate-cases [
    | inl e ↦ rw e tt
    | inr (u, f, g, e) ↦ rw e (record {
      user = u;
      private_key = p.private_key;
      selected = unfold selected_user in f;
      built = unfold request_for in refl;
      readable = readable_key u f g;
    })
  ]

  auto_timer-cases : (auto_timer p ≡ none) ⊎ (auto_timer p ≡ handle_generate p)
  unfolding auto_timer
  auto_timer-cases = ground arith

  auto_timer-IsFor : TimerFor p.users p.selected_key p.namespace p.vault_enabled (auto_timer p)
  auto_timer-IsFor = elim auto_timer-cases [ inl e ↦ rw e tt | inr e ↦ rw e generate-IsFor ]

  auto_generate-Inv : Inv (auto_generate p)
  unfolding auto_generate
  auto_generate-Inv = (refl, refl, auto_timer-IsFor)

pub same_text : (s t : String) → (s == t) ≡ true → s ≡ t
same_text s t e = ground (arith, eq_iff s t)

-- Only the namespace may have changed since the last run of the effect.
ns_rendered-Inv :
    (before : String) (p : Panel)
    → p.prev_key ≡ p.selected_key
    → p.prev_ns ≡ before
    → TimerFor p.users p.selected_key before p.vault_enabled p.timer
    → Inv (ns_rendered before p)
unfolding ns_rendered
ns_rendered-Inv before p k n t = elim (Bool-cases (before == p.namespace)) [
  | inr e ↦ rw e (auto_generate-Inv p)
  | inl e ↦ rw e (
    k,
    n ∙ same_text before p.namespace e,
    subst (λ ns. TimerFor p.users p.selected_key ns p.vault_enabled p.timer)
        (same_text before p.namespace e) t,
  )
]

-- Only the key may have changed since the last run of the effect.
key_rendered-Inv :
    (before : String) (p : Panel)
    → p.prev_key ≡ before
    → p.prev_ns ≡ p.namespace
    → TimerFor p.users before p.namespace p.vault_enabled p.timer
    → Inv (key_rendered before p)
unfolding key_rendered user_changed auto_generate
key_rendered-Inv before p k n t = elim (Bool-cases (before == p.selected_key)) [
  | inr e ↦ rw e (
      ns_rendered-Inv p.namespace (user_changed p (auto_generate p)) refl refl (auto_timer-IsFor p))
  | inl e ↦ rw e (
    k ∙ same_text before p.selected_key e,
    n,
    subst (λ key. TimerFor p.users key p.namespace p.vault_enabled p.timer)
        (same_text before p.selected_key e) t,
  )
]

preselect_name-cases :
    (props : Props) (name : String) (p : Panel)
    → (preselect_name props name p ≡ p)
      ⊎ ((k : String) × (preselect_name props name p
            ≡ record p { preselection_done = true; selected_key = k }))
preselect_name-cases props name p =
    elim (Bool-cases (p.preselection_done || name == "" || is_empty p.users)) [
      | inl e ↦ inl (simp e)
      | inr e ↦
          inr (keyed (match_of p.users name props.preselected_namespace) p.selected_key, simp e)
    ]

-- The preselection changes nothing but the key.
pub preselect-cases :
    (props : Props) (p : Panel)
    → (preselect props p ≡ p)
      ⊎ ((k : String) × (preselect props p
            ≡ record p { preselection_done = true; selected_key = k }))
unfolding preselect
preselect-cases props p = elim (Option-cases props.preselected_name) [
  | inl e ↦ inl (rw (e, preselect) refl)
  | inr (name, e) ↦ rw (e, preselect) (preselect_name-cases props name p)
]

preselect-rendered :
    (props : Props) (p : Panel) → Inv p → Inv (key_rendered p.selected_key (preselect props p))
preselect-rendered props p v = elim (preselect-cases props p) [
  | inl e ↦
      subst (λ q. Inv (key_rendered p.selected_key q)) (sym e)
        (key_rendered-Inv p.selected_key p v.0 v.1 v.2)
  | inr (k, e) ↦
      subst (λ q. Inv (key_rendered p.selected_key q)) (sym e)
        (key_rendered-Inv p.selected_key (record p { preselection_done = true; selected_key = k })
          v.0 v.1 v.2)
]

vault_rendered-Inv : (b : Bool) (p : Panel) → Inv p → Inv (vault_rendered b p)
unfolding vault_rendered
vault_rendered-Inv b p v = elim (Bool-cases (same_bool b p.vault_enabled)) [
  | inl e ↦ rw e v
  | inr e ↦ rw e (auto_generate-Inv (record p { vault_enabled = b }))
]

ask-Inv : (o : Option KubeconfigRequest) (p : Panel) → Inv p → Inv (ask o p).0
unfolding ask
ask-Inv none p v = v
ask-Inv (some r) p v = v

handle-Inv : (props : Props) (e : Event) (p : Panel) → Inv p → Inv (handle props e p).0
unfolding handle auto_generate
handle-Inv props (users_loaded us) p v =
    let q : Panel = record p { users = us } in
    preselect-rendered props (auto_generate q) (auto_generate-Inv q)
handle-Inv props (vault_changed b) p v = vault_rendered-Inv b p v
handle-Inv props (write_changed b) p v = v
handle-Inv props (select_key k) p v =
    key_rendered-Inv p.selected_key (record p { selected_key = k }) v.0 v.1 v.2
handle-Inv props (select_namespace ns) p v =
    ns_rendered-Inv p.namespace (record p { namespace = ns }) v.0 v.1 v.2
handle-Inv props (set_private_key w) p v = v
handle-Inv props click_generate p v = ask-Inv (handle_generate p) p v
handle-Inv props timer_fired p v = ask-Inv p.timer (record p { timer = none }) (v.0, v.1, tt)
handle-Inv props (answered f) p v = v

pub Reach-Inv : {props : Props} {p : Panel} → Reach props p → Inv p
unfolding opened
Reach-Inv (here vault write) = (refl, refl, tt)
Reach-Inv {props} (then_ {p} r e on) = handle-Inv props e p (Reach-Inv r)

asked-IsFor :
    (o : Option KubeconfigRequest) (p q : Panel)
    → TimerFor p.users p.selected_key p.namespace p.vault_enabled o
    → All (IsFor p) (ask o q).1
unfolding ask
asked-IsFor none p q t = tt
asked-IsFor (some r) p q t = (t, tt)

-- However the panel is used, whatever the hooks give and whenever the timer fires: a kubeconfig is
-- asked for only for the user that is selected at that moment and the namespace that is shown. A
-- service account is named with its own namespace and without a private key; a certificate user
-- is named with a private key, which is not blank unless Vault is enabled.
pub Reach-IsFor :
    {props : Props} {p : Panel}
    → Reach props p
    → (e : Event) → controls p e ≡ true
    → All (IsFor p) (handle props e p).1
unfolding handle
Reach-IsFor {props} {p} r click_generate on = asked-IsFor (handle_generate p) p p (generate-IsFor p)
Reach-IsFor {props} {p} r timer_fired on =
    asked-IsFor p.timer p (record p { timer = none }) (Reach-Inv r).2
Reach-IsFor r _ on = tt
