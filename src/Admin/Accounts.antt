-- ===== src/Admin/Accounts.antt =====
-- Which accounts can be created, changed and deleted on the page.
use clustervision.Base.{
  ◌≡◌, ◌≢◌, refl, true, false, [], ◌∷◌, Option, none, some, All, arith, eq_iff, ◌⊎◌, inl, inr,
}
use clustervision.Auth.{AuthStore}
use clustervision.Admin.{
  Source, local, ldap, CvUser, Page, Effect, ask_create, ask_reset, ask_delete, is_username,
  handle_submit, reset_shown, delete_shown, Event, click_roles, click_reset, click_delete,
  submit_create, submit_reset, confirm_delete, handle, is_self, controls, Answer, created, reset,
  deleted, answered, Reach, here, used, settled, is_ldap,
}

abbrev pub ShowsLocal : Option CvUser → Type 0
ShowsLocal none = Unit
ShowsLocal (some u) = u.source ≡ local

abbrev ShowsOther : AuthStore → Option CvUser → Type 0
ShowsOther s none = Unit
ShowsOther s (some u) = is_self s u ≡ false

-- What the dialogs show.
abbrev Inv : AuthStore → Page → Type 0
Inv s p = ShowsLocal p.reset_target × ShowsLocal p.roles_target × ShowsOther s p.delete_target

-- What may be asked of the backend: what the form or the dialog of the page shows.
abbrev pub Permitted : AuthStore → Page → Effect → Type 0
Permitted s p (ask_create u w) =
    (u ≡ p.username) × (w ≡ p.password) × (is_username u ≡ true) × (w ≢ "")
Permitted s p (ask_reset u w) =
    (w ≡ p.new_password)
    × (w ≢ "")
    × ((t : CvUser) × (p.reset_target ≡ some t) × (t.username ≡ u) × (t.source ≡ local))
Permitted s p (ask_delete u) =
    (t : CvUser) × (p.delete_target ≡ some t) × (t.username ≡ u) × (is_self s t ≡ false)

local_of : (x : Source) → is_ldap x ≡ false → x ≡ local
local_of local e = refl
local_of ldap e = cc

module _ (s : AuthStore) (p : Page) where
  submit-Inv : Inv s p → Inv s (handle_submit p).0
  unfolding handle_submit
  submit-Inv v = ground arith

  reset_shown-Inv : Inv s p → (o : Option CvUser) → Inv s (reset_shown p o).0
  unfolding reset_shown
  reset_shown-Inv v none = v
  reset_shown-Inv v (some u) = v

  delete_shown-Inv : Inv s p → (o : Option CvUser) → Inv s (delete_shown p o).0
  unfolding delete_shown
  delete_shown-Inv v none = v
  delete_shown-Inv v (some u) = v

  handle-Inv : (e : Event) → controls s p e ≡ true → Inv s p → Inv s (handle e p).0
  unfolding handle controls
  handle-Inv submit_create on v = submit-Inv v
  handle-Inv submit_reset on v = reset_shown-Inv v p.reset_target
  handle-Inv confirm_delete on v = delete_shown-Inv v p.delete_target
  handle-Inv (click_reset u) on v = (local_of u.source (ground arith), v.1, v.2)
  handle-Inv (click_roles u) on v = (v.0, local_of u.source (ground arith), v.2)
  handle-Inv (click_delete u) on v = (v.0, v.1, ground arith)
  handle-Inv Event.close_reset on v = (tt, v.1, v.2)
  handle-Inv Event.close_roles on v = (v.0, tt, v.2)
  handle-Inv Event.close_delete on v = (v.0, v.1, tt)
  handle-Inv _ on v = v

  answered-Inv : (a : Answer) → Inv s p → Inv s (answered a p)
  unfolding answered
  answered-Inv (reset true) v = (tt, v.1, v.2)
  answered-Inv (deleted true) v = (v.0, v.1, tt)
  answered-Inv (created true) v = v
  answered-Inv (created false) v = v
  answered-Inv (reset false) v = v
  answered-Inv (deleted false) v = v

  -- The form of a new account is refused, or is in order.
  submit_outcome :
      ((handle_submit p).1 ≡ [])
      ⊎ ((is_username p.username ≡ true)
          × (p.password ≢ "")
          × ((handle_submit p).1 ≡ ask_create p.username p.password ∷ []))
  unfolding handle_submit
  submit_outcome = ground (arith, eq_iff p.password "")

  submit-Permitted : All (Permitted s p) (handle_submit p).1
  submit-Permitted = elim submit_outcome [
    | inl e ↦ rw e tt
    | inr (n, w, e) ↦ rw e ((refl, refl, n, w), tt)
  ]

  reset_shown-Permitted :
      (o : Option CvUser)
      → p.reset_target ≡ o
      → p.new_password ≢ ""
      → ShowsLocal o
      → All (Permitted s p) (reset_shown p o).1
  unfolding reset_shown
  reset_shown-Permitted none e w a = tt
  reset_shown-Permitted (some u) e w a = ((refl, w, (u, e, refl, a)), tt)

  delete_shown-Permitted :
      (o : Option CvUser)
      → p.delete_target ≡ o
      → ShowsOther s o
      → All (Permitted s p) (delete_shown p o).1
  unfolding delete_shown
  delete_shown-Permitted none e a = tt
  delete_shown-Permitted (some u) e a = ((u, e, refl, a), tt)

  handle-Permitted :
      (e : Event) → controls s p e ≡ true → Inv s p → All (Permitted s p) (handle e p).1
  unfolding handle controls
  handle-Permitted submit_create on v = submit-Permitted
  handle-Permitted submit_reset on v =
      reset_shown-Permitted p.reset_target refl (ground (arith, eq_iff p.new_password "")) v.0
  handle-Permitted confirm_delete on v = delete_shown-Permitted p.delete_target refl v.2
  handle-Permitted _ on v = tt

Reach-Inv : {s : AuthStore} {p : Page} → Reach s p → Inv s p
Reach-Inv here = (tt, tt, tt)
Reach-Inv {s} (used {p} r e on) = handle-Inv s p e on (Reach-Inv r)
Reach-Inv {s} (settled {p} r a w) = answered-Inv s p a (Reach-Inv r)

-- However the page is used in a session: it asks to create an account only with the name and the
-- password of the form, if the regular expression accepts the name and the password is not empty;
-- to set the password that was typed, if it is not empty, only for the account that the dialog
-- shows, which is not from LDAP; and to delete only the account that the dialog shows, whose name
-- is not that of the user who is signed in. The dialog of the roles shows no account from LDAP.
pub Reach-Permitted :
    {s : AuthStore} {p : Page}
    → Reach s p
    → (e : Event) → controls s p e ≡ true
    → All (Permitted s p) (handle e p).1 × ShowsLocal (handle e p).0.roles_target
Reach-Permitted {s} {p} r e on =
    (handle-Permitted s p e on (Reach-Inv r), (handle-Inv s p e on (Reach-Inv r)).1)
