-- ===== src/Wizard/Namespaces.antt =====
-- The namespaces that step 2 selects, and the list that it shows.
use mathlib.Core.Path.{subst}
use clustervision.Base.{sym, String, ◌≡◌, true, List, includes, arith, Option-cases, inl, inr}
use clustervision.Types.{UserWithCredentials}
use clustervision.Wizard.{
  handle_step1_next, permissions, Wizard, Effect, initial, pending_ns, namespaces_with_pending,
}
use clustervision.Wizard.Finishing.{finish_created, on_created, on_assigned, selected_role}
use clustervision.Wizard.Controls.{
  Event, set_sa_namespace, set_new_namespace, toggles, next, back, add_inline, copy_key,
  copy_kubeconfig, download_credentials, closes, handle, identity_controls, permissions_controls,
  done_controls, controls, Step, control, created, create_failed, assigned, generated,
  generate_failed, copied_over, Reach, here, then_,
}
use clustervision.Wizard.Sets.{Distinct}
use clustervision.Wizard.Selection.{
  Inv, includes-with_pending, next-Inv, toggle-Inv, add_inline-Inv, read-Inv,
}

-- The updater of the selection runs at once.
abbrev Prompt : Event → Type 0
Prompt (next at_once) = at_once ≡ true
Prompt _ = Unit

handle-Inv :
    (nss : List String) (e : Event) (s : Wizard)
    → controls nss s e ≡ true
    → Prompt e
    → Inv nss s
    → Inv nss (handle e s).0
unfolding handle controls identity_controls permissions_controls done_controls pending_ns
handle-Inv nss (set_sa_namespace t) s on b v = record {
  shown = v.shown;
  fresh = λ p. ground arith;
  given = v.given;
  distinct = v.distinct;
}
handle-Inv nss (set_new_namespace t) s on b v = record {
  shown = v.shown;
  fresh = λ p. ground arith;
  given = v.given;
  distinct = v.distinct;
}
handle-Inv nss (next at_once) s on b v =
    subst (λ a. Inv nss (handle_step1_next a s)) (sym b) (next-Inv nss s v)
handle-Inv nss (toggles ns) s on b v = toggle-Inv nss ns s (ground arith) (ground arith) v
handle-Inv nss add_inline s on b v = add_inline-Inv nss s v
handle-Inv nss copy_key s on b v = (read-Inv nss "" s v).0
handle-Inv nss copy_kubeconfig s on b v = (read-Inv nss "" s v).1
handle-Inv nss (download_credentials now) s on b v = (read-Inv nss now s v).2
handle-Inv nss closes s on b v = record {
  shown = λ x h. cc;
  fresh = λ p. cc;
  given = λ p. cc;
  distinct = tt;
}
handle-Inv nss back s on b v = record {
  shown = v.shown;
  fresh = λ p. cc;
  given = v.given;
  distinct = v.distinct;
}
handle-Inv nss _ s on b v = record {
  shown = v.shown;
  fresh = v.fresh;
  given = v.given;
  distinct = v.distinct;
}

created-Inv :
    (nss : List String) (d : UserWithCredentials) (s : Wizard)
    → Inv nss s
    → Inv nss (on_created d s).0
unfolding on_created finish_created pending_ns
created-Inv nss d s v = elim (Option-cases (selected_role s)) [
  | inl e ↦
      rw (e, on_created)
        (record { shown = v.shown; fresh = λ p. cc; given = v.given; distinct = v.distinct })
  | inr (role, e) ↦
      rw (e, on_created)
        (record { shown = v.shown; fresh = v.fresh; given = v.given; distinct = v.distinct })
]

abbrev PromptStep : {nss : List String} {s t : Wizard} {es : List Effect} → Step nss s t es → Type 0
PromptStep (control e on) = Prompt e
PromptStep _ = Unit

Step-Inv :
    {nss : List String} {s t : Wizard} {es : List Effect} (st : Step nss s t es)
    → PromptStep st
    → Inv nss s
    → Inv nss t
unfolding on_assigned finish_created pending_ns
Step-Inv {nss} {s} (control e on) b v = handle-Inv nss e s on b v
Step-Inv {nss} {s} (created d w) b v = created-Inv nss d s v
Step-Inv (assigned d worked w) b v = record {
  shown = v.shown;
  fresh = λ p. cc;
  given = v.given;
  distinct = v.distinct;
}
Step-Inv (create_failed w) b v = record {
  shown = v.shown;
  fresh = v.fresh;
  given = v.given;
  distinct = v.distinct;
}
Step-Inv (generated y w) b v = record {
  shown = v.shown;
  fresh = v.fresh;
  given = v.given;
  distinct = v.distinct;
}
Step-Inv (generate_failed w) b v = record {
  shown = v.shown;
  fresh = v.fresh;
  given = v.given;
  distinct = v.distinct;
}
Step-Inv copied_over b v = record {
  shown = v.shown;
  fresh = v.fresh;
  given = v.given;
  distinct = v.distinct;
}

-- Every updater of the selection ran at once.
abbrev AllPrompt : {nss : List String} {s t : Wizard} → Reach nss s t → Type 0
AllPrompt here = Unit
AllPrompt (then_ r st) = AllPrompt r × PromptStep st

Reach-Inv : {nss : List String} {s : Wizard} (r : Reach nss initial s) → AllPrompt r → Inv nss s
Reach-Inv here b = record { shown = λ x h. cc; fresh = λ p. cc; given = λ p. cc; distinct = tt }
Reach-Inv (then_ r st) b = Step-Inv st b.1 (Reach-Inv r b.0)

-- However the wizard is used from its start, while the list of namespaces stays the same and every
-- updater of the selection runs at once: on step 2 every selected namespace stands in the list that
-- is shown, and none is selected twice.
selected-visible :
    (nss : List String) (s : Wizard) (r : Reach nss initial s)
    → AllPrompt r
    → s.stage ≡ permissions
    → ((x : String)
        → includes s.selected_ns x ≡ true
        → includes (namespaces_with_pending nss s) x ≡ true)
      × Distinct s.selected_ns
selected-visible nss s r b e =
    let v = Reach-Inv r b in
    (λ x k. ground (arith, v.shown x k, v.fresh e, includes-with_pending nss s x), v.distinct)
