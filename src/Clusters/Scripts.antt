-- ===== src/Clusters/Scripts.antt =====
-- The scripts of the dialog when two are asked for.
use clustervision.Base.{
  String, ◌≡◌, ◌≢◌, refl, ap, true, false, [], ◌∷◌, ◌++◌, some, ◌==◌, trim, includes, arith, eq_iff,
}
use mathlib.Core.Path.{subst}
use clustervision.Auth.{AuthStore, is_instance_admin, ClusterStore}
use clustervision.Clusters.{
  Form, fresh, handle_generate_script, press_enter, set_cmd_name, handle_form, Page, opened,
  open_add, in_form, use_form, handle, controls, form_controls, on_manual, without_first,
  script_answered, script_of, awaits, answered, Reach, here, used, settled,
}

module _ (s : AuthStore) (c : ClusterStore) where
  abbrev pub page : Form → Page
  page f = record (opened c) { add = some f }

  abbrev asking : Form → Form
  asking f = record f { loading_script = true; asked = f.asked ++ trim f.cmd_name ∷ [] }

  generated : (f : Form) → trim f.cmd_name ≢ "" → (handle_generate_script f).0 ≡ asking f
  unfolding handle_generate_script
  generated f given =
      let filled : (trim f.cmd_name == "") ≡ false = ground (arith, eq_iff (trim f.cmd_name) "") in
      rw filled refl

  entered :
      (f : Form)
      → trim f.cmd_name ≢ ""
      → on_manual f.tab ≡ false
      → Reach s c (page f)
      → Reach s c (page (asking f))
  unfolding handle use_form handle_form controls form_controls
  entered f given tab r =
      subst (λ g. Reach s c (page g)) (generated f given)
        (used r [] (in_form press_enter) (ground arith))

  typed :
      (v : String) (f : Form)
      → on_manual f.tab ≡ false
      → Reach s c (page f)
      → Reach s c (page (record f { cmd_name = v }))
  unfolding handle use_form handle_form controls form_controls
  typed v f tab r = used r [] (in_form (set_cmd_name v)) (ground arith)

  -- Two scripts can be asked for, since the key in the field is not held back: when the second one has
  -- come, the dialog shows it and no longer says that it is loading, though the first one has not
  -- come. When the first one comes, it takes the place of the script of the name in the field.
  pub late_script :
      is_instance_admin s ≡ true
      → (n m x y : String) → trim n ≢ ""
      → trim m ≢ ""
      → trim n ≢ trim m
      → (f : Form) × Reach s c (page f)
        × (f.cmd_name ≡ m)
        × (f.script ≡ some y)
        × (f.loading_script ≡ false)
        × (awaits (page f) (script_of (trim n) (some x)) ≡ true)
        × ((answered (script_of (trim n) (some x)) (page f)).add
            ≡ some (record f { script = some x; asked = [] }))
  unfolding handle controls answered script_answered
  late_script admin n m x y some_n some_m other =
      let first = typed n fresh refl (used here [] open_add admin) in
      let both = entered _ some_m refl (typed m _ refl (entered _ some_n refl first)) in
      let shown : Form = record fresh { cmd_name = m; script = some y; asked = trim n ∷ [] } in
      let waits : includes (trim n ∷ []) (trim n) ≡ true =
        ground (arith, eq_iff (trim n) (trim n)) in
      let last : includes (trim n ∷ trim m ∷ []) (trim m) ≡ true =
        ground (arith, eq_iff (trim m) (trim m)) in
      let rest : without_first (trim m) (trim n ∷ trim m ∷ []) ≡ trim n ∷ [] =
        ground (arith, eq_iff (trim n) (trim m), eq_iff (trim m) (trim m)) in
      let gone : without_first (trim n) (trim n ∷ []) ≡ [] =
        ground (arith, eq_iff (trim n) (trim n)) in
      (
        shown,
        subst (λ a. Reach s c (page (record shown { asked = a }))) rest
            (settled both (script_of (trim m) (some y)) last),
        refl,
        refl,
        refl,
        waits,
        ap (λ a. some (record shown { script = some x; asked = a })) gone,
      )
