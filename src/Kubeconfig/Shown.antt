-- ===== src/Kubeconfig/Shown.antt =====
-- Whose kubeconfig the preview shows.
use clustervision.Base.{
  String, ◌≡◌, refl, sym, ap, ◌∙◌, Bool, true, false, List, [], ◌∷◌, Option, none, some, ◌==◌,
  Bool-cases, inl, inr, All,
}
use mathlib.Core.Path.{subst}
use clustervision.Types.{User, KubeconfigRequest}
use clustervision.Kubeconfig.{
  Fetch, idle, pending, failed, ready, Props, Panel, opened, user_key, handle_generate,
  auto_generate, user_changed, ns_rendered, key_rendered, vault_rendered, same_bool, preselect,
  Event, users_loaded, vault_changed, write_changed, select_key, select_namespace, set_private_key,
  click_generate, timer_fired, answered, ask, handle, controls, is_pending, Reach, here, then_,
}
use clustervision.Kubeconfig.Requests.{listed, IsFor, preselect-cases, Reach-IsFor, same_text}

abbrev is_answer : Event → Bool
is_answer (answered f) = true
is_answer _ = false

-- The request whose answer counts: the last one that was made.
abbrev latest : Option KubeconfigRequest → List KubeconfigRequest → Option KubeconfigRequest
latest g [] = g
latest g (q ∷ qs) = latest (some q) qs

-- One use of the panel with the request whose answer counts, where the backend answers by `api`.
pub data Honest (props : Props) (api : KubeconfigRequest → String)
    : Panel → Option KubeconfigRequest → Type 0 where
  start : (vault write : Bool) → Honest props api (opened props vault write) none
  used :
      {p : Panel} {g : Option KubeconfigRequest}
      → Honest props api p g
      → (e : Event) → controls p e ≡ true
      → is_answer e ≡ false
      → Honest props api (handle props e p).0 (latest g (handle props e p).1)
  succeeded :
      {p : Panel}
      → (q : KubeconfigRequest) → Honest props api p (some q)
      → controls p (answered (ready (api q))) ≡ true
      → Honest props api (handle props (answered (ready (api q))) p).0 (some q)
  refused :
      {p : Panel} {g : Option KubeconfigRequest}
      → Honest props api p g
      → controls p (answered failed) ≡ true
      → Honest props api (handle props (answered failed) p).0 g

Honest-Reach :
    {props : Props} {api : KubeconfigRequest → String} {p : Panel} {g : Option KubeconfigRequest}
    → Honest props api p g
    → Reach props p
Honest-Reach (start vault write) = here vault write
Honest-Reach (used h e on other) = then_ (Honest-Reach h) e on
Honest-Reach {api = api} (succeeded q h on) = then_ (Honest-Reach h) (answered (ready (api q))) on
Honest-Reach (refused h on) = then_ (Honest-Reach h) (answered failed) on

-- A request for a user with the key.
abbrev pub ForKey : String → KubeconfigRequest → Type 0
ForKey k q = (u : User) × (user_key u ≡ k) × (q.username ≡ u.name)

find-user_key : (k : String) (us : List User) (u : User) → listed us k ≡ some u → user_key u ≡ k
find-user_key k [] u e = cc
find-user_key k (v ∷ us) u e = elim (Bool-cases (user_key v == k)) [
  | inl t ↦
      let here_found = rw t at e in
      let same : v ≡ u = cc in ap user_key (sym same) ∙ same_text (user_key v) k t
  | inr t ↦ find-user_key k us u (rw t at e)
]

IsFor-ForKey : (p : Panel) (q : KubeconfigRequest) → IsFor p q → ForKey p.selected_key q
IsFor-ForKey p q r =
    (r.user, find-user_key p.selected_key p.users r.user r.selected, ap (λ x. x.username) r.built)

module _ (api : KubeconfigRequest → String) where
  abbrev ShowsFor : String → Option KubeconfigRequest → Fetch → Type 0
  ShowsFor k g idle = Unit
  ShowsFor k g failed = Unit
  ShowsFor k g pending = (q : KubeconfigRequest) × (g ≡ some q) × ForKey k q
  ShowsFor k g (ready t) = (q : KubeconfigRequest) × (t ≡ api q) × ForKey k q

  abbrev Shows : Option KubeconfigRequest → Panel → Type 0
  Shows g p = ShowsFor p.selected_key g p.generate

  module _ (g : Option KubeconfigRequest) where
    ns_rendered-Shows : (before : String) (p : Panel) → Shows g p → Shows g (ns_rendered before p)
    unfolding ns_rendered auto_generate
    ns_rendered-Shows before p v = elim (Bool-cases (before == p.namespace)) [
      | inl e ↦ rw e v
      | inr e ↦ rw e v
    ]

    key_rendered-Shows :
        (before : String) (p : Panel)
        → ShowsFor before g p.generate
        → Shows g (key_rendered before p)
    unfolding key_rendered user_changed
    key_rendered-Shows before p v = elim (Bool-cases (before == p.selected_key)) [
      | inl e ↦ rw e (subst (λ k. ShowsFor k g p.generate) (same_text before p.selected_key e) v)
      | inr e ↦ rw e (ns_rendered-Shows p.namespace (user_changed p (auto_generate p)) tt)
    ]

    preselect-Shows :
        (props : Props) (p : Panel)
        → Shows g p
        → Shows g (key_rendered p.selected_key (preselect props p))
    preselect-Shows props p v = elim (preselect-cases props p) [
      | inl e ↦
          subst (λ q. Shows g (key_rendered p.selected_key q)) (sym e)
            (key_rendered-Shows p.selected_key p v)
      | inr (k, e) ↦
          subst (λ q. Shows g (key_rendered p.selected_key q)) (sym e)
            (key_rendered-Shows p.selected_key
              (record p { preselection_done = true; selected_key = k }) v)
    ]

    vault_rendered-Shows : (b : Bool) (p : Panel) → Shows g p → Shows g (vault_rendered b p)
    unfolding vault_rendered auto_generate
    vault_rendered-Shows b p v = elim (Bool-cases (same_bool b p.vault_enabled)) [
      | inl e ↦ rw e v
      | inr e ↦ rw e v
    ]

    ask-Shows :
        (o t : Option KubeconfigRequest) (p : Panel)
        → All (IsFor p) (ask o (record p { timer = t })).1
        → Shows g p
        → let (q, xs) = ask o (record p { timer = t }) in Shows (latest g xs) q
    unfolding ask
    ask-Shows none t p h v = v
    ask-Shows (some r) t p h v = (r, refl, IsFor-ForKey p r h.0)

    handle-Shows :
        (props : Props) (e : Event) (p : Panel)
        → is_answer e ≡ false
        → All (IsFor p) (handle props e p).1
        → Shows g p
        → Shows (latest g (handle props e p).1) (handle props e p).0
    unfolding handle auto_generate
    handle-Shows props (users_loaded us) p other h v =
        preselect-Shows props (auto_generate (record p { users = us })) v
    handle-Shows props (vault_changed b) p other h v = vault_rendered-Shows b p v
    handle-Shows props (select_key k) p other h v =
        key_rendered-Shows p.selected_key (record p { selected_key = k }) v
    handle-Shows props (select_namespace ns) p other h v =
        ns_rendered-Shows p.namespace (record p { namespace = ns }) v
    handle-Shows props click_generate p other h v = ask-Shows (handle_generate p) p.timer p h v
    handle-Shows props timer_fired p other h v = ask-Shows p.timer none p h v
    handle-Shows props (answered f) p other h v = cc
    handle-Shows props (write_changed b) p other h v = v
    handle-Shows props (set_private_key w) p other h v = v

  waits-ForKey :
      (q : KubeconfigRequest) (k : String) (f : Fetch)
      → is_pending f ≡ true
      → ShowsFor k (some q) f
      → ForKey k q
  waits-ForKey q k pending w (r, e, h) = let same : r ≡ q = cc in subst (ForKey k) same h
  waits-ForKey q k idle w v = cc
  waits-ForKey q k failed w v = cc
  waits-ForKey q k (ready t) w v = cc

Honest-Shows :
    {props : Props} {api : KubeconfigRequest → String} {p : Panel} {g : Option KubeconfigRequest}
    → Honest props api p g
    → Shows api g p
unfolding opened handle controls
Honest-Shows (start vault write) = tt
Honest-Shows {props} {api} (used {p} {g} h e on other) =
    handle-Shows api g props e p other (Reach-IsFor (Honest-Reach h) e on) (Honest-Shows h)
Honest-Shows {props} {api} (succeeded {p} q h on) =
    (q, refl, waits-ForKey api q p.selected_key p.generate on (Honest-Shows h))
Honest-Shows (refused h on) = tt

-- However the panel is used, whatever the hooks give and whenever the timer fires, if each answer is
-- the one of the last request: the kubeconfig that is shown was asked for a user whose key is the
-- one that is selected, also after the selection has changed while an answer was awaited.
pub shown-ForKey :
    {props : Props} {api : KubeconfigRequest → String} {p : Panel} {g : Option KubeconfigRequest}
    → Honest props api p g
    → (t : String) → p.generate ≡ ready t
    → (q : KubeconfigRequest) × (t ≡ api q) × ForKey p.selected_key q
shown-ForKey {props} {api} {p} {g} h t e = subst (ShowsFor api p.selected_key g) e (Honest-Shows h)
