-- ===== src/Simulator/Showing.antt =====
-- Whether the sentence that is shown is the one that was checked.
use clustervision.Base.{
  String, ◌≡◌, refl, Bool, true, false, ◌&&◌, ◌||◌, List, [], Option, none, some, ◌==◌, trim,
  includes, ap, Bool-cases, inl, inr, is_some,
}
use mathlib.Core.Path.{subst}
use clustervision.Types.{CheckAccessRequest}
use clustervision.Simulator.{
  CheckAccessResult, Form, Panel, opened, effective_resource, check_of, handle_check, Event,
  set_user, set_verb, set_namespace, set_resource, set_custom_resource, set_api_group, click_check,
  answered, failed, controls, handle, sentence, common_verbs, or_undefined,
}

-- The event is the answer of a check, or a change of a field.
abbrev is_answer : Event → Bool
is_answer (answered r) = true
is_answer _ = false

abbrev edits : Event → Bool
edits click_check = false
edits (answered r) = false
edits failed = false
edits _ = true

-- One use of the panel, where the backend answers each check by `api`. In a calm use no field is
-- changed while a check is pending.
pub data Reach (api : CheckAccessRequest → CheckAccessResult) (calm : Bool) : Panel → Type 0 where
  here : Reach api calm opened
  used :
      {p : Panel}
      → Reach api calm p
      → (write : Bool) (namespaces : List String) (e : Event) → controls write namespaces p e ≡ true
      → is_answer e ≡ false
      → (calm && edits e && is_some p.asked) ≡ false
      → Reach api calm (handle e p).0
  settled :
      {p : Panel}
      → Reach api calm p
      → (q : CheckAccessRequest) → p.asked ≡ some q
      → Reach api calm (handle (answered (api q)) p).0

module _ (api : CheckAccessRequest → CheckAccessResult) where
  abbrev Asked : Form → Option CheckAccessRequest → Type 0
  Asked f none = Unit
  Asked f (some q) = q ≡ check_of f

  abbrev Shown : Form → Option CheckAccessResult → Type 0
  Shown f none = Unit
  Shown f (some r) = r ≡ api (check_of f)

  abbrev Inv : Panel → Type 0
  Inv p = Asked p.form p.asked × Shown p.form p.result

  nothing_asked : (f : Form) (o : Option CheckAccessRequest) → is_some o ≡ false → Asked f o
  nothing_asked f none e = tt
  nothing_asked f (some q) e = cc

  handle_check-Inv : (p : Panel) → Inv p → Inv (handle_check p).0
  unfolding handle_check
  handle_check-Inv p v =
      elim (Bool-cases (trim p.form.user == "" || effective_resource p.form == "")) [
        | inl e ↦ rw e v
        | inr e ↦ rw e (refl, v.1)
      ]

  set_resource-Inv :
      (r : String) (p : Panel) → is_some p.asked ≡ false → Inv p → Inv (handle (set_resource r) p).0
  unfolding handle
  set_resource-Inv r p free v = elim (Bool-cases (r == "__custom__")) [
    | inl e ↦ rw e v
    | inr e ↦
        rw e (nothing_asked (record p.form { resource = r; custom_resource = "" }) p.asked free, tt)
  ]

  handle-Inv :
      (p : Panel) (e : Event)
      → is_answer e ≡ false
      → (edits e && is_some p.asked) ≡ false
      → Inv p
      → Inv (handle e p).0
  unfolding handle
  handle-Inv p click_check n free v = handle_check-Inv p v
  handle-Inv p failed n free v = (tt, v.1)
  handle-Inv p (answered r) n free v = cc
  handle-Inv p (set_resource r) n free v = set_resource-Inv r p free v
  handle-Inv p (set_user w) n free v = (nothing_asked (record p.form { user = w }) p.asked free, tt)
  handle-Inv p (set_verb w) n free v = (nothing_asked (record p.form { verb = w }) p.asked free, tt)
  handle-Inv p (set_namespace w) n free v =
      (nothing_asked (record p.form { namespace = w }) p.asked free, tt)
  handle-Inv p (set_custom_resource w) n free v =
      (nothing_asked (record p.form { custom_resource = w }) p.asked free, tt)
  handle-Inv p (set_api_group w) n free v =
      (nothing_asked (record p.form { api_group = w }) p.asked free, tt)

  settled-Inv :
      (p : Panel) (q : CheckAccessRequest)
      → p.asked ≡ some q
      → Inv p
      → Inv (handle (answered (api q)) p).0
  unfolding handle
  settled-Inv p q e v = (tt, ap api (subst (Asked p.form) e v.0))

  Reach-Inv : {p : Panel} → Reach api true p → Inv p
  Reach-Inv here = (tt, tt)
  Reach-Inv (used {p} r write namespaces e on n free) = handle-Inv p e n free (Reach-Inv r)
  Reach-Inv (settled {p} r q e) = settled-Inv p q e (Reach-Inv r)

-- In a use in which no field is changed while a check is pending: whatever result is shown is the
-- backend's answer to the check that the form describes.
pub calm-Shown :
    (api : CheckAccessRequest → CheckAccessResult) {p : Panel} (r : CheckAccessResult)
    → Reach api true p
    → p.result ≡ some r
    → r ≡ api (check_of p.form)
calm-Shown api {p} r reach e = subst (Shown api p.form) e (Reach-Inv api reach).1

-- In any use, while a check is pending: changing the verb and waiting leads to a sentence that gives
-- the answer of the pending check with the new verb, for which nothing was asked.
stale_answer :
    (api : CheckAccessRequest → CheckAccessResult) {p : Panel} (q : CheckAccessRequest) (v : String)
    → Reach api false p
    → p.asked ≡ some q
    → includes common_verbs v ≡ true
    → (z : Panel) × Reach api false z
      × (sentence z
          ≡ some (record {
            allowed = (api q).allowed;
            user = p.form.user;
            verb = v;
            resource = effective_resource (record p.form { verb = v });
            namespace = or_undefined p.form.namespace;
          }))
unfolding handle controls sentence
stale_answer api {p} q v reach e listed = (
  (handle (answered (api q)) (handle (set_verb v) p).0).0,
  settled (used reach true [] (set_verb v) listed refl refl) q e,
  refl,
)
