-- ===== src/Wizard/Renaming.antt =====
-- A new namespace that is renamed in step 1 after step 2 was reached, where the updater of
-- CreateUserWizard.tsx reads the ref at once or in the next render.
use clustervision.Base.{
  String, ◌≡◌, ◌≢◌, refl, ap, ◌∙◌, Bool, true, false, List, some, includes, eq_iff, arith,
}
use clustervision.Wizard.{
  identity, permissions, Wizard, initial, pending_ns, namespaces_with_pending, validate_step1,
  drop_stale, advance, handle_step1_next, set_delete,
}
use clustervision.Wizard.Controls.{next, handle, identity_controls, controls, control, Reach, then_}
use clustervision.Wizard.Sets.{includes-set_add, includes-set_delete}
use clustervision.Wizard.Identity.{validate_step1-SameInput}
use clustervision.Wizard.Selection.{includes-with_pending, pending_ns-same}

-- The name `last`, which step 1 selected before, is still selected, but the field holds another
-- name, and step 2 would not list `last`.
pub record Replaced (nss : List String) (last : String) (s : Wizard) : Type 0 where
  pub on_step1 : s.stage ≡ identity
  pub valid : (validate_step1 s).1 ≡ true
  pub added : s.last_auto_added ≡ some last
  pub selected : includes s.selected_ns last ≡ true
  pub named : last ≢ ""
  pub other : last ≢ pending_ns s
  pub unlisted : includes nss last ≡ false
  pub untyped : includes s.extra_ns last ≡ false

abbrev pub after : Bool → Wizard → Wizard
after at_once s = (handle (next at_once) s).0

next_on :
    (nss : List String) (at_once : Bool) (s : Wizard)
    → s.stage ≡ identity
    → controls nss s (next at_once) ≡ true
unfolding controls identity_controls
next_on nss at_once s e = rw e refl

valid-advance :
    (at_once : Bool) (s : Wizard)
    → (validate_step1 s).1 ≡ true
    → after at_once s ≡ advance at_once (pending_ns s) (validate_step1 s).0
unfolding handle handle_step1_next
valid-advance at_once s e = rw (e, handle, handle_step1_next) refl

advance-stage :
    (at_once : Bool) (p : String) (t : Wizard) → (advance at_once p t).stage ≡ permissions
unfolding advance
advance-stage at_once p t = refl

-- The updater that runs at once takes the old name away.
at_once-drops :
    (last p : String) (t : Wizard)
    → t.last_auto_added ≡ some last
    → last ≢ ""
    → last ≢ p
    → includes (advance true p t).selected_ns last ≡ false
unfolding advance drop_stale
at_once-drops last p t e ne other = rw e (
    ground (
      arith,
      eq_iff last "",
      eq_iff last p,
      eq_iff p last,
      includes-set_add (set_delete t.selected_ns last) p last,
      includes-set_delete t.selected_ns last last,
      eq_iff last last,
    ))

-- The updater that runs in the next render takes no name away.
later-keeps :
    (last p : String) (t : Wizard)
    → includes t.selected_ns last ≡ true
    → includes (advance false p t).selected_ns last ≡ true
unfolding advance drop_stale
later-keeps last p t e = ground (arith, eq_iff p p, includes-set_add t.selected_ns p last)

-- Step 2 lists no name that neither the field nor a list holds.
advance-unlisted :
    (nss : List String) (last p : String) (at_once : Bool) (t : Wizard)
    → p ≡ pending_ns t
    → last ≢ p
    → includes nss last ≡ false
    → includes t.extra_ns last ≡ false
    → includes (namespaces_with_pending nss (advance at_once p t)) last ≡ false
unfolding advance pending_ns
advance-unlisted nss last p at_once t e ne un ex =
    ground (arith, includes-with_pending nss (advance at_once p t) last, eq_iff p last, eq_iff p "")

-- In any state that the wizard reaches on step 1, where the input is valid, and the namespace that
-- step 1 selected before is still selected, but is not the one in the field any more and stands in
-- no list, neither of the namespaces nor of those typed in on step 2: Next leads to step 2 both when
-- the updater of the selection runs at once and when it runs in the next render. Run at once, it takes
-- the old namespace out of the selection; run in the next render, it leaves it selected, although
-- the list of step 2 does not show it.
pub renamed-stays :
    (nss : List String) (last : String) (s : Wizard)
    → Reach nss initial s
    → Replaced nss last s
    → Reach nss initial (after true s)
      × Reach nss initial (after false s)
      × ((after true s).stage ≡ permissions)
      × ((after false s).stage ≡ permissions)
      × (includes (after true s).selected_ns last ≡ false)
      × (includes (after false s).selected_ns last ≡ true)
      × (includes (namespaces_with_pending nss (after false s)) last ≡ false)
renamed-stays nss last s r v =
    let t = (validate_step1 s).0 in
    let p = pending_ns s in
    let same = validate_step1-SameInput s in
    let prompt = valid-advance true s v.valid in
    let late = valid-advance false s v.valid in
    let pending = pending_ns-same s t same in
    (
      then_ r (control (next true) (next_on nss true s v.on_step1)),
      then_ r (control (next false) (next_on nss false s v.on_step1)),
      ap (λ w. w.stage) prompt ∙ advance-stage true p t,
      ap (λ w. w.stage) late ∙ advance-stage false p t,
      ap (λ w. includes w.selected_ns last) prompt
          ∙ at_once-drops last p t (same.last_auto_added ∙ v.added) v.named v.other,
      ap (λ w. includes w.selected_ns last) late
          ∙ later-keeps last p t (ap (λ l. includes l last) same.selected_ns ∙ v.selected),
      ap (λ w. includes (namespaces_with_pending nss w) last) late
          ∙ advance-unlisted nss last p false t pending v.other v.unlisted
              (ap (λ l. includes l last) same.extra_ns ∙ v.untyped),
    )
