-- ===== src/Kubeconfig/Selecting.antt =====
-- What the selection of a user starts.
use clustervision.Base.{
  String, ◌≡◌, ◌≢◌, ◌⊎◌, refl, ap, ◌∙◌, true, false, not, ◌||◌, none, some, ◌==◌, trim, arith,
  eq_iff, Bool-cases, inl, inr, is_some, if◌then◌else◌,
}
use clustervision.Types.{certificate, service_account, User}
use clustervision.Kubeconfig.{
  Props, Panel, selected_user, is_cert, is_certificate, can_generate, request_for, handle_generate,
  ns_only_changed, auto_timer, auto_generate, user_changed, ns_rendered, key_rendered, select_key,
  handle,
}

-- What the effect does for a user who may write, when a user is selected.
module _ (p : Panel) (u : User) (writer : p.can_write ≡ true)
    (found : selected_user p ≡ some u) where
  cert-type : is_cert p ≡ is_certificate u.user_type
  unfolding is_cert
  cert-type = rw found refl

  generates :
      (not (is_cert p) || not (trim p.private_key == "") || p.vault_enabled) ≡ true
      → can_generate p ≡ true
  unfolding can_generate
  generates h = ground (arith, ap is_some found)

  handles : can_generate p ≡ true → handle_generate p ≡ some (request_for p u)
  unfolding handle_generate
  handles h = rw (h, found) refl

  pub timer-sa : u.user_type ≡ service_account → auto_timer p ≡ some (request_for p u)
  unfolding auto_timer
  timer-sa t =
      let c : is_cert p ≡ false = cert-type ∙ ap is_certificate t in
      let g : can_generate p ≡ true = generates (rw c refl) in rw (c, g) (handles g)

  pub timer-vault :
      u.user_type ≡ certificate
      → p.vault_enabled ≡ true
      → auto_timer p ≡ (if ns_only_changed p then none else some (request_for p u))
  unfolding auto_timer
  timer-vault t v =
      let c : is_cert p ≡ true = cert-type ∙ ap is_certificate t in
      let g : can_generate p ≡ true = generates (ground arith) in simp (c, g, v, handles g)

-- The selection of a user `u` by the key `k`: the two renders that it leads to.
module _ (props : Props) (p : Panel) (u : User) (k : String)
    (another : (p.selected_key == k) ≡ false)
    (found : selected_user (record p { selected_key = k }) ≡ some u) where
  abbrev pub chosen : Panel
  chosen = record p { selected_key = k }

  abbrev pub updated : Panel
  updated = user_changed chosen (auto_generate chosen)

  selects : (handle props (select_key k) p).0 ≡ ns_rendered p.namespace updated
  unfolding handle key_rendered
  selects = rw another refl

  pub updated-namespace : u.namespace ≢ "" → updated.namespace ≡ u.namespace
  unfolding user_changed auto_generate
  updated-namespace given = rw found (ground (arith, eq_iff u.namespace ""))

  pub kept-namespace :
      (u.namespace ≡ "") ⊎ (u.namespace ≡ p.namespace) → updated.namespace ≡ p.namespace
  unfolding user_changed auto_generate
  kept-namespace h = rw found (ground (arith, eq_iff u.namespace ""))

  pub updated-user : selected_user updated ≡ some u
  unfolding user_changed auto_generate selected_user
  updated-user = found

  pub timer-kept :
      (p.namespace == updated.namespace) ≡ true
      → (handle props (select_key k) p).0.timer ≡ auto_timer chosen
  unfolding ns_rendered
  timer-kept e = ap (λ q. q.timer) selects ∙ rw e first_timer
    where
      first_timer : updated.timer ≡ auto_timer chosen
      first_timer = unfold user_changed auto_generate in refl

  pub timer-moved :
      (p.namespace == updated.namespace) ≡ false
      → (handle props (select_key k) p).0.timer ≡ auto_timer updated
  unfolding ns_rendered
  timer-moved e = ap (λ q. q.timer) selects ∙ rw e (unfold auto_generate in refl)

  pub emptied : (handle props (select_key k) p).0.private_key ≡ ""
  unfolding ns_rendered
  emptied = ap (λ q. q.private_key) selects ∙ by_namespace
    where
      by_namespace : (ns_rendered p.namespace updated).private_key ≡ ""
      by_namespace = elim (Bool-cases (p.namespace == updated.namespace)) [
        | inl e ↦ rw e (unfold user_changed in refl)
        | inr e ↦ rw e (unfold user_changed auto_generate in refl)
      ]

  pub first-ns_only : p.prev_ns ≡ p.namespace → ns_only_changed chosen ≡ false
  unfolding ns_only_changed
  first-ns_only e = ground (arith, eq_iff p.prev_ns p.namespace)

  pub moved-ns_only : (p.namespace == updated.namespace) ≡ false → ns_only_changed updated ≡ true
  unfolding ns_only_changed user_changed auto_generate
  moved-ns_only e = ground (arith, eq_iff k k)
