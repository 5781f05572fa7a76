-- ===== src/Wizard/Selection.antt =====
-- The selected namespaces: where each of them comes from, and that the operations keep that.
use clustervision.Base.{
  String, ◌≡◌, ◌≢◌, Bool, true, false, not, ◌||◌, List, [], ◌++◌, Option, none, some, ◌==◌, eq_iff,
  trim, includes, includes-append, filter, arith, Bool-cases, Option-cases, inl, inr,
}
use clustervision.Wizard.{
  permissions, Wizard, set_delete, set_adds, pending_ns, or_null, one_of, all_new_ns,
  namespaces_with_pending, validate_step1, drop_stale, add_pending, advance, handle_step1_next,
  add_inline_ns, toggle_ns,
}
use clustervision.Wizard.Finishing.{
  handle_copy_key, handle_copy_kubeconfig, handle_download_credentials, key_of, data_of,
}
use clustervision.Wizard.Identity.{SameInput, validate_step1-SameInput}
use clustervision.Wizard.Sets.{
  includes-set_add, includes-set_delete, includes-set_adds, includes-filter, Distinct,
  set_add-Distinct, set_delete-Distinct,
}

abbrev is_last : Option String → String → Bool
is_last none x = false
is_last (some l) x = l == x

-- Where a selected namespace comes from.
abbrev known : List String → List String → Option String → String → Bool
known nss extra last x = includes nss x || includes extra x || is_last last x

-- Every selected namespace exists, was typed in on step 2, or was added by step 1.
abbrev Shown : List String → List String → Option String → List String → Type 0
Shown nss extra last sel = (x : String) → includes sel x ≡ true → known nss extra last x ≡ true

-- The selected namespaces in a state of the wizard.
pub record Inv (nss : List String) (s : Wizard) : Type 0 where
  pub shown : Shown nss s.extra_ns s.last_auto_added s.selected_ns
  pub fresh : s.stage ≡ permissions → s.last_auto_added ≡ or_null (pending_ns s)
  pub given : s.last_auto_added ≢ some ""
  pub distinct : Distinct s.selected_ns

drop_stale-Distinct :
    (last : Option String) (p : String) (sel : List String)
    → Distinct sel
    → Distinct (drop_stale last p sel)
unfolding drop_stale
drop_stale-Distinct none p sel d = d
drop_stale-Distinct (some l) p sel d = ground (arith, set_delete-Distinct sel l d)

-- After step 1 the stale name is gone, and the new one is there.
next-Shown :
    (nss extra : List String) (last : Option String) (p : String) (sel : List String)
    → last ≢ some ""
    → Shown nss extra last sel
    → Shown nss extra (or_null p) (add_pending p (drop_stale last p sel))
unfolding drop_stale
next-Shown nss extra none p sel ne h =
    λ x k. ground (arith, h x, includes-set_add sel p x, eq_iff p x, eq_iff p "")
next-Shown nss extra (some l) p sel ne h = λ x k. ground (
  arith,
  h x,
  includes-set_add sel p x,
  includes-set_add (set_delete sel l) p x,
  includes-set_delete sel l x,
  eq_iff p x,
  eq_iff p "",
  eq_iff l "",
  eq_iff l p,
  eq_iff l x,
)

same-Inv : (nss : List String) (s t : Wizard) → SameInput s t → Inv nss s → Inv nss t
unfolding pending_ns
same-Inv nss s t same v = record {
  shown = λ x k. ground (arith, v.shown x);
  fresh = λ e. ground arith;
  given = λ e. v.given (ground arith);
  distinct = ground arith;
}

advance-Inv :
    (nss : List String) (p : String) (t : Wizard)
    → p ≡ pending_ns t
    → Inv nss t
    → Inv nss (advance true p t)
unfolding advance pending_ns
advance-Inv nss p t e v = record {
  shown = next-Shown nss t.extra_ns t.last_auto_added p t.selected_ns v.given v.shown;
  fresh = λ _. rw e;
  given = λ k. ground (arith, eq_iff p "");
  distinct = ground (
    arith,
    drop_stale-Distinct t.last_auto_added p t.selected_ns v.distinct,
    set_add-Distinct (drop_stale t.last_auto_added p t.selected_ns) p,
  );
}

pub pending_ns-same : (s t : Wizard) → SameInput s t → pending_ns s ≡ pending_ns t
unfolding pending_ns
pending_ns-same s t same = ground arith

pub next-Inv : (nss : List String) (s : Wizard) → Inv nss s → Inv nss (handle_step1_next true s)
unfolding handle_step1_next
next-Inv nss s v =
    let same = validate_step1-SameInput s in
    let w = same-Inv nss s (validate_step1 s).0 same v in
    elim (Bool-cases (validate_step1 s).1) [
      | inl ok ↦
          rw (ok, handle_step1_next)
            (advance-Inv nss (pending_ns s) (validate_step1 s).0
              (pending_ns-same s (validate_step1 s).0 same) w)
      | inr bad ↦ rw (bad, handle_step1_next) w
    ]

pub includes-with_pending :
    (nss : List String) (s : Wizard) (x : String)
    → includes (namespaces_with_pending nss s) x ≡ known nss s.extra_ns (or_null (pending_ns s)) x
unfolding namespaces_with_pending all_new_ns
includes-with_pending nss s x =
    let given = one_of (or_null (pending_ns s)) ++ s.extra_ns in
    ground (
      arith,
      includes-append (filter (λ ns. not (includes nss ns)) (set_adds [] given)) nss x,
      includes-filter (λ ns. not (includes nss ns)) (set_adds [] given) x,
      includes-set_adds [] given x,
      includes-append (one_of (or_null (pending_ns s))) s.extra_ns x,
    )

pub toggle-Inv :
    (nss : List String) (ns : String) (s : Wizard)
    → s.stage ≡ permissions
    → includes (namespaces_with_pending nss s) ns ≡ true
    → Inv nss s
    → Inv nss (toggle_ns ns s)
unfolding toggle_ns pending_ns
toggle-Inv nss ns s e k v = record {
  shown = λ x h. ground (
    arith,
    v.shown x,
    includes-with_pending nss s ns,
    includes-set_add s.selected_ns ns x,
    includes-set_delete s.selected_ns ns x,
    v.fresh e,
    eq_iff ns x,
  );
  fresh = v.fresh;
  given = v.given;
  distinct = ground (
    arith,
    v.distinct,
    set_add-Distinct s.selected_ns ns v.distinct,
    set_delete-Distinct s.selected_ns ns v.distinct,
  );
}

pub add_inline-Inv : (nss : List String) (s : Wizard) → Inv nss s → Inv nss (add_inline_ns s)
unfolding add_inline_ns pending_ns
add_inline-Inv nss s v =
    let ns = trim s.inline_ns_input in
    record {
      shown = λ x h.
          ground (
            arith,
            v.shown x,
            includes-set_add s.selected_ns ns x,
            includes-set_add s.extra_ns ns x,
          );
      fresh = λ e. ground (arith, v.fresh);
      given = λ e. v.given (ground arith);
      distinct = ground (arith, v.distinct, set_add-Distinct s.selected_ns ns v.distinct);
    }

-- Reading the credentials changes no more than the mark `copied`.
pub read-Inv :
    (nss : List String) (now : String) (s : Wizard)
    → Inv nss s
    → Inv nss (handle_copy_key s).0
      × Inv nss (handle_copy_kubeconfig s).0
      × Inv nss (handle_download_credentials now s).0
unfolding handle_copy_key handle_copy_kubeconfig handle_download_credentials pending_ns
read-Inv nss now s v = (
  elim (Option-cases (key_of s.credentials)) [
    | inl e ↦ rw (e, handle_copy_key) v
    | inr (k, e) ↦ rw (e, handle_copy_key) v
  ],
  elim (Option-cases (data_of s.kubeconfig)) [
    | inl e ↦ rw (e, handle_copy_kubeconfig) v
    | inr (y, e) ↦
        rw (e, handle_copy_kubeconfig)
          (record { shown = v.shown; fresh = v.fresh; given = v.given; distinct = v.distinct })
  ],
  elim (Option-cases s.credentials) [
    | inl e ↦ rw (e, handle_download_credentials) v
    | inr (d, e) ↦ rw (e, handle_download_credentials) v
  ],
)
