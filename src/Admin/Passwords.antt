-- ===== src/Admin/Passwords.antt =====
-- What the dialogs of the passwords keep when they are closed.
use clustervision.Base.{◌≡◌, ◌≢◌, refl, String, true, false, [], ◌∷◌, some, arith, eq_iff}
use clustervision.Auth.{AuthStore}
use clustervision.Admin.{
  local, CvUser, Page, ask_reset, click_reset, set_new_password, close_reset, submit_reset,
  reset_shown, handle, controls, Reach, used,
}

-- The dialog of `a`, a password typed in it, the dialog closed, and the dialog of `b`.
abbrev reopened : CvUser → String → Page → Page
reopened b w p = record p { reset_target = some b; new_password = w }

-- On every page that a session reaches with no reset pending: after the dialog of a local account
-- is opened, a password typed and the dialog cancelled, the dialog of any other local account
-- opens with that password in its field, can be submitted, and sets it for the other account.
leftover_password :
    {s : AuthStore} {p : Page} (a b : CvUser) (w : String)
    → Reach s p
    → p.resetting ≡ false
    → a.source ≡ local
    → b.source ≡ local
    → w ≢ ""
    → let q = reopened b w p in
      Reach s q
      × (controls s q submit_reset ≡ true)
      × ((handle submit_reset q).1 ≡ ask_reset b.username w ∷ [])
unfolding handle controls reset_shown
leftover_password {s} {p} a b w r idle la lb typed = (
  used
      (used (used (used r (click_reset a) (rw (la, controls) refl)) (set_new_password w) refl)
        close_reset refl)
      (click_reset b) (rw (lb, controls) refl),
  ground (arith, eq_iff w ""),
  refl,
)
