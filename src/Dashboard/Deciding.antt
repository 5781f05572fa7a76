-- ===== src/Dashboard/Deciding.antt =====
-- Which requests are listed, and which of them are decided.
use clustervision.Base.{
  ℕ, ◌≡◌, ◌⊎◌, refl, Bool, true, false, List, [], ◌∷◌, Option, none, some, get_elem?, arith, All,
  All-take, All-get_elem?, All-filter, Bool-cases, inl, inr,
}
use clustervision.Types.{pending, AccessRequest}
use clustervision.Auth.{AuthStore}
use clustervision.Requests.Review.{is_privileged, is_own_request}
use clustervision.Requests.Approving.{Approvable, Decidable}
use clustervision.Dashboard.{
  Page, is_pending, all_pending, my_pending, counted, rows, Effect, ask_approve, ask_deny, Event,
  click_approve, click_deny, cancelled, confirmed, foreign, controls, deny_row, approve_shown,
  handle, answered, Reach, here, used, settled,
}

-- A request that waits, and that the user may see: the own ones, or all for who may decide.
abbrev Visible : AuthStore → AccessRequest → Type 0
Visible s r = (r.status ≡ pending) × ((is_privileged s ≡ true) ⊎ (is_own_request s r ≡ true))

module _ (s : AuthStore) where
  waits : (r : AccessRequest) → is_pending r.status ≡ true → r.status ≡ pending
  waits r e = ground arith

  all_pending-Visible :
      is_privileged s ≡ true → (rs : List AccessRequest) → All (Visible s) (all_pending rs)
  unfolding all_pending
  all_pending-Visible e rs =
      All-filter (Visible s) (λ r. is_pending r.status) rs (λ r h. (waits r h, inl e))

  my_pending-Visible : (rs : List AccessRequest) → All (Visible s) (my_pending s rs)
  unfolding my_pending all_pending
  my_pending-Visible [] = tt
  my_pending-Visible (r ∷ rs) = elim (Bool-cases (is_pending r.status)) [
    | inl e ↦ rw e (elim (Bool-cases (is_own_request s r)) [
      | inl o ↦ rw o ((waits r e, inr o), my_pending-Visible rs)
      | inr o ↦ rw o (my_pending-Visible rs)
    ])
    | inr e ↦ rw e (my_pending-Visible rs)
  ]

  counted-Visible : (rs : List AccessRequest) → All (Visible s) (counted s rs)
  unfolding counted
  counted-Visible rs = elim (Bool-cases (is_privileged s)) [
    | inl e ↦ rw e (all_pending-Visible e rs)
    | inr e ↦ rw e (my_pending-Visible rs)
  ]

  -- Every row is a request that waits; who may not decide sees only the own ones.
  rows-Visible : (rs : List AccessRequest) → All (Visible s) (rows s rs)
  unfolding rows
  rows-Visible rs = All-take (Visible s) 6 (counted s rs) (counted-Visible rs)

  abbrev Asks : Option AccessRequest → Type 0
  Asks none = Unit
  Asks (some r) = Approvable s r

  approve-Asks :
      (rs : List AccessRequest) (i : ℕ) (o : Option AccessRequest)
      → get_elem? (rows s rs) i ≡ o
      → is_privileged s ≡ true
      → foreign s o ≡ true
      → Asks o
  approve-Asks rs i none e w other = tt
  approve-Asks rs i (some r) e w other = record {
    privileged = w;
    waits = (All-get_elem? (Visible s) (rows s rs) i r (rows-Visible rs) e).0;
    other = ground arith;
  }

  -- What may be asked of the backend by an event: of the request that the dialog shows, or that
  -- stands in the row whose button is pressed, of the requests `rs` that are loaded.
  abbrev pub Decides : List AccessRequest → Page → Event → Effect → Type 0
  Decides rs p e (ask_approve id) =
      (r : AccessRequest) × (p.approve_target ≡ some r) × (r.id ≡ id) × Approvable s r
  Decides rs p e (ask_deny id) =
      (r : AccessRequest) × (i : ℕ) × (e ≡ click_deny i)
      × (get_elem? (rows s rs) i ≡ some r)
      × (r.id ≡ id)
      × Decidable s pending r

  deny-Decides :
      (p : Page) (rs : List AccessRequest) (i : ℕ) (o : Option AccessRequest)
      → get_elem? (rows s rs) i ≡ o
      → is_privileged s ≡ true
      → All (Decides rs p (click_deny i)) (deny_row o)
  deny-Decides p rs i none e w = tt
  deny-Decides p rs i (some r) e w =
      let seen = All-get_elem? (Visible s) (rows s rs) i r (rows-Visible rs) e in
      ((r, i, refl, e, refl, record { privileged = w; state = seen.0 }), tt)

  module _ (p : Page) where
    approve_shown-Decides :
        (rs : List AccessRequest) (o : Option AccessRequest)
        → p.approve_target ≡ o
        → Asks o
        → All (Decides rs p confirmed) (approve_shown o p).1
    approve_shown-Decides rs none k a = tt
    approve_shown-Decides rs (some r) k a = ((r, k, refl, a), tt)

    handle-Decides :
        (rs : List AccessRequest) (e : Event)
        → controls s rs p e ≡ true
        → Asks p.approve_target
        → All (Decides rs p e) (handle s rs e p).1
    unfolding handle controls
    handle-Decides rs (click_deny i) on a =
        deny-Decides p rs i (get_elem? (rows s rs) i) refl (ground arith)
    handle-Decides rs confirmed on a = approve_shown-Decides rs p.approve_target refl a
    handle-Decides rs _ on a = tt

    approve_shown-Asks :
        (o : Option AccessRequest)
        → Asks p.approve_target
        → Asks (approve_shown o p).0.approve_target
    approve_shown-Asks none a = a
    approve_shown-Asks (some r) a = a

    handle-Asks :
        (rs : List AccessRequest) (e : Event)
        → controls s rs p e ≡ true
        → Asks p.approve_target
        → Asks (handle s rs e p).0.approve_target
    unfolding handle controls
    handle-Asks rs (click_approve i) on a =
        approve-Asks rs i (get_elem? (rows s rs) i) refl (ground arith) (ground arith)
    handle-Asks rs (click_deny i) on a = a
    handle-Asks rs cancelled on a = tt
    handle-Asks rs confirmed on a = approve_shown-Asks p.approve_target a

    answered-Asks : (ok : Bool) → Asks p.approve_target → Asks (answered ok p).approve_target
    unfolding answered
    answered-Asks true a = tt
    answered-Asks false a = a

Reach-Asks : {s : AuthStore} {p : Page} → Reach s p → Asks s p.approve_target
Reach-Asks here = tt
Reach-Asks {s} (used {p} r rs e on) = handle-Asks s p rs e on (Reach-Asks r)
Reach-Asks {s} (settled {p} r ok w) = answered-Asks s p ok (Reach-Asks r)

-- However the dashboard is used in a session, whatever requests are loaded at each moment: it asks
-- to approve only the request that the dialog shows, for an approver or an admin of the instance, if
-- that request was waiting when its row was pressed and was not made by the signed-in user; and to
-- deny only the request in the row whose button is pressed, which is waiting, for such a user.
pub Reach-Decides :
    {s : AuthStore} {p : Page}
    → Reach s p
    → (rs : List AccessRequest) (e : Event) → controls s rs p e ≡ true
    → All (Decides s rs p e) (handle s rs e p).1
Reach-Decides {s} {p} r rs e on = handle-Decides s p rs e on (Reach-Asks r)
