-- ===== src/Clusters/Registering.antt =====
-- What the page of the clusters asks of the backend.
use clustervision.Base.{
  String, ◌≡◌, ◌≢◌, ◌⊎◌, inl, inr, refl, ◌-◌, true, false, List, [], ◌∷◌, Option, none, some, All,
  ◌==◌, trim, arith, eq_iff, Bool-cases,
}
use clustervision.Auth.{AuthStore, is_instance_admin, ClusterStore}
use clustervision.Shell.{ClusterEntry}
use clustervision.Clusters.{
  Form, Effect, ask_add, ask_script, ask_remove, write_clipboard, blank, handle_manual_submit,
  handle_generate_script, copy_text, handle_copy, FormEvent, submit, click_generate, press_enter,
  click_copy, handle_form, Page, Event, open_add, close_add, close_remove, confirm_remove, in_form,
  click_remove, click_row, open_dialog, close_dialog, use_form, remove_shown, handle, controls,
  Answer, script_of, added, other_added, removed, in_dialog, answered, Reach, here, used, settled,
}

abbrev Admin : AuthStore → Type 0
Admin s = is_instance_admin s ≡ true

-- What the dialog may ask, as the form stands.
abbrev FromForm : Form → Effect → Type 0
FromForm f (ask_add a) =
    (a.name ≡ f.name)
    × (a.api_url ≡ f.api_url)
    × (a.ca_data ≡ f.ca_data)
    × (a.token ≡ f.token)
    × (a.name ≢ "")
    × (a.api_url ≢ "")
    × (a.ca_data ≢ "")
    × (a.token ≢ "")
FromForm f (ask_script n) = (n ≡ trim f.cmd_name) × (n ≢ "")
FromForm f (ask_remove n) = ⊥
FromForm f (write_clipboard t) = (f.script ≡ some t) × (t ≢ "")

-- A control that was used on the way to the page.
abbrev pub Pressed : {s : AuthStore} {c : ClusterStore} {p : Page} → Reach s c p → Event → Type 0
Pressed here f = ⊥
Pressed (used r clusters e on) f = (e ≡ f) ⊎ Pressed r f
Pressed (settled r a w) f = Pressed r f

-- What may be asked, where `Was` tells which controls were used.
abbrev pub Rightful : AuthStore → (Event → Type 0) → Page → Effect → Type 0
Rightful s Was p (ask_remove n) =
    Admin s
    × (p.remove_target ≡ some n)
    × ((c : ClusterEntry) × (c.name ≡ n) × (c.is_local ≡ false) × Was (click_remove c))
Rightful s Was p x = Admin s × ((f : Form) × (p.add ≡ some f) × FromForm f x)

abbrev Opens : AuthStore → Option Form → Type 0
Opens s none = Unit
Opens s (some f) = Admin s

abbrev Removes : AuthStore → (Event → Type 0) → Option String → Type 0
Removes s Was none = Unit
Removes s Was (some n) =
    Admin s × ((c : ClusterEntry) × (c.name ≡ n) × (c.is_local ≡ false) × Was (click_remove c))

abbrev Inv : AuthStore → (Event → Type 0) → Page → Type 0
Inv s Was p = Opens s p.add × Removes s Was p.remove_target

-- With one more control that was used.
abbrev Now : Event → (Event → Type 0) → Event → Type 0
Now e Was f = (e ≡ f) ⊎ Was f

later :
    (s : AuthStore) (e : Event) (Was : Event → Type 0) (o : Option String)
    → Removes s Was o
    → Removes s (Now e Was) o
later s e Was none r = tt
later s e Was (some n) (a, (c, m, l, w)) = (a, (c, m, l, inr w))

module _ (f : Form) where
  submit-FromForm : All (FromForm f) (handle_manual_submit f).1
  unfolding handle_manual_submit
  submit-FromForm = elim (Bool-cases (blank f)) [
    | inl e ↦ rw e tt
    | inr e ↦ rw e (
      (
        refl,
        refl,
        refl,
        refl,
        ground (arith, eq_iff f.name ""),
        ground (arith, eq_iff f.api_url ""),
        ground (arith, eq_iff f.ca_data ""),
        ground (arith, eq_iff f.token ""),
      ),
      tt,
    )
  ]

  generate-FromForm : All (FromForm f) (handle_generate_script f).1
  unfolding handle_generate_script
  generate-FromForm = elim (Bool-cases (trim f.cmd_name == "")) [
    | inl e ↦ rw e tt
    | inr e ↦ rw e ((refl, ground (arith, eq_iff (trim f.cmd_name) "")), tt)
  ]

  copy-FromForm : (o : Option String) → f.script ≡ o → All (FromForm f) (copy_text f o).1
  copy-FromForm none k = tt
  copy-FromForm (some t) k = elim (Bool-cases (t == "")) [
    | inl e ↦ rw e tt
    | inr e ↦ rw e ((k, ground (arith, eq_iff t "")), tt)
  ]

  handle_form-FromForm : (e : FormEvent) → All (FromForm f) (handle_form e f).1
  unfolding handle_form handle_copy
  handle_form-FromForm submit = submit-FromForm
  handle_form-FromForm click_generate = generate-FromForm
  handle_form-FromForm press_enter = generate-FromForm
  handle_form-FromForm click_copy = copy-FromForm f.script refl
  handle_form-FromForm _ = tt

module _ (s : AuthStore) (Was : Event → Type 0) (p : Page) where
  rightful :
      (f : Form) (xs : List Effect)
      → Admin s
      → p.add ≡ some f
      → All (FromForm f) xs
      → All (Rightful s Was p) xs
  rightful f [] a k h = tt
  rightful f (ask_add q ∷ xs) a k h = ((a, (f, k, h.0)), rightful f xs a k h.1)
  rightful f (ask_script n ∷ xs) a k h = ((a, (f, k, h.0)), rightful f xs a k h.1)
  rightful f (ask_remove n ∷ xs) a k h = absurd h.0
  rightful f (write_clipboard t ∷ xs) a k h = ((a, (f, k, h.0)), rightful f xs a k h.1)

  use_form-Rightful :
      (e : FormEvent) (o : Option Form)
      → p.add ≡ o
      → Opens s o
      → All (Rightful s Was p) (use_form e o p).1
  unfolding use_form
  use_form-Rightful e none k a = tt
  use_form-Rightful e (some f) k a = rightful f (handle_form e f).1 a k (handle_form-FromForm f e)

  remove_shown-Rightful :
      (o : Option String)
      → p.remove_target ≡ o
      → Removes s Was o
      → All (Rightful s Was p) (remove_shown o p).1
  remove_shown-Rightful none k r = tt
  remove_shown-Rightful (some n) k (a, c) = ((a, k, c), tt)

  later_on : (e : Event) (q : Page) → Inv s Was q → Inv s (Now e Was) q
  later_on e q v = (v.0, later s e Was q.remove_target v.1)

  handle-Rightful : (e : Event) → Inv s Was p → All (Rightful s Was p) (handle e p).1
  unfolding handle
  handle-Rightful (in_form e) v = use_form-Rightful e p.add refl v.0
  handle-Rightful confirm_remove v = remove_shown-Rightful p.remove_target refl v.1
  handle-Rightful _ v = tt

  open_dialog-Inv : (o : Option Form) → Admin s → Inv s Was p → Inv s Was (open_dialog o p)
  open_dialog-Inv none a v = (a, v.1)
  open_dialog-Inv (some f) a v = v

  close_dialog-Inv : (o : Option Form) → Inv s Was p → Inv s Was (close_dialog o p)
  unfolding close_dialog
  close_dialog-Inv none v = v
  close_dialog-Inv (some f) v = (tt, v.1)

  use_form-Inv :
      (e : FormEvent) (o : Option Form) → Opens s o → Inv s Was p → Inv s Was (use_form e o p).0
  unfolding use_form
  use_form-Inv e none a v = v
  use_form-Inv e (some f) a v = (a, v.1)

  remove_shown-Inv : (o : Option String) → Inv s Was p → Inv s Was (remove_shown o p).0
  remove_shown-Inv none v = v
  remove_shown-Inv (some n) v = v

  handle-Inv :
      (clusters : List ClusterEntry) (e : Event)
      → controls s clusters p e ≡ true
      → Inv s Was p
      → Inv s (Now e Was) (handle e p).0
  unfolding handle controls
  handle-Inv clusters open_add on v =
      later_on open_add (open_dialog p.add p) (open_dialog-Inv p.add on v)
  handle-Inv clusters close_add on v =
      later_on close_add (close_dialog p.add p) (close_dialog-Inv p.add v)
  handle-Inv clusters (in_form e) on v =
      later_on (in_form e) (use_form e p.add p).0 (use_form-Inv e p.add v.0 v)
  handle-Inv clusters (click_remove c) on v =
      (v.0, (ground arith, (c, refl, ground arith, inl refl)))
  handle-Inv clusters close_remove on v = (v.0, tt)
  handle-Inv clusters confirm_remove on v =
      later_on confirm_remove (remove_shown p.remove_target p).0
        (remove_shown-Inv p.remove_target v)
  handle-Inv clusters (click_row c) on v = (v.0, later s (click_row c) Was p.remove_target v.1)

  answered_form-Inv : (a : Answer) (o : Option Form) → Opens s o → Opens s (in_dialog a o)
  answered_form-Inv (script_of n x) (some f) v = v
  answered_form-Inv (added false) (some f) v = v
  answered_form-Inv (added true) (some f) v = tt
  answered_form-Inv (other_added ok) (some f) v = v
  answered_form-Inv (removed ok) (some f) v = v
  answered_form-Inv a none v = tt

answered-Inv :
    (s : AuthStore) (Was : Event → Type 0) (p : Page) (a : Answer)
    → Inv s Was p
    → Inv s Was (answered a p)
unfolding answered
answered-Inv s Was p (other_added false) v = v
answered-Inv s Was p (other_added true) v =
    close_dialog-Inv s Was (record p { others = p.others - 1 }) p.add v
answered-Inv s Was p (removed false) v = v
answered-Inv s Was p (removed true) v = (v.0, tt)
answered-Inv s Was p (script_of n x) v = (answered_form-Inv s Was p (script_of n x) p.add v.0, v.1)
answered-Inv s Was p (added ok) v = (answered_form-Inv s Was p (added ok) p.add v.0, v.1)

Reach-Inv : {s : AuthStore} {c : ClusterStore} {p : Page} (r : Reach s c p) → Inv s (Pressed r) p
Reach-Inv here = (tt, tt)
Reach-Inv {s} {c} (used {p} r clusters e on) =
    handle-Inv s (Pressed r) p clusters e on (Reach-Inv r)
Reach-Inv {s} {c} (settled {p} r a w) = answered-Inv s (Pressed r) p a (Reach-Inv r)

-- However the page is used in a session: only an instance administrator adds a cluster, asks for a
-- script or removes a cluster. A cluster is added with the name, the address, the certificate and the
-- token of the form, none of which is empty; a script is asked for by the trimmed name of
-- the form, which is not empty; what is removed is the cluster that the dialog shows, after the
-- button of a row with that name, which is not the local cluster, was pressed; what is copied is the
-- script that the form shows.
pub Reach-Rightful :
    {s : AuthStore} {c : ClusterStore} {p : Page}
    → (r : Reach s c p) → (e : Event) → All (Rightful s (Pressed r) p) (handle e p).1
Reach-Rightful {s} {c} {p} r e = handle-Rightful s (Pressed r) p e (Reach-Inv r)
