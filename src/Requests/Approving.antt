-- ===== src/Requests/Approving.antt =====
-- Who can approve, deny, revoke and export.
use clustervision.Base.{
  ◌≡◌, refl, true, false, List, Option, none, some, All, arith, Option-cases, inl, inr,
}
use clustervision.Types.{AccessRequestStatus, pending, approved, AccessRequest}
use clustervision.Auth.{AuthStore}
use clustervision.Requests.Review.{
  Verdict, approve, revoke, Page, Effect, ask_approve, ask_deny, ask_revoke, ask_export, refetch,
  is_instance_admin, is_privileged, is_own_request, Event, click_approve, click_deny, click_revoke,
  confirmed, open_export, export_csv, controls, handle_confirm, handle, Step, control, approve_done,
  revoke_done, export_done, Reach, here, then_,
}

-- A request that waits for its approval, of another user than the one who is signed in.
pub record Approvable (s : AuthStore) (r : AccessRequest) : Type 0 where
  pub privileged : is_privileged s ≡ true
  pub waits : r.status ≡ pending
  pub other : is_own_request s r ≡ false

-- A request in the given state, for a user who may decide.
pub record Decidable (s : AuthStore) (status : AccessRequestStatus) (r : AccessRequest)
    : Type 0 where
  pub privileged : is_privileged s ≡ true
  pub state : r.status ≡ status

-- What the dialog asks about.
abbrev Asks : AuthStore → Option (Verdict × AccessRequest) → Type 0
Asks s none = Unit
Asks s (some (approve, r)) = Approvable s r
Asks s (some (revoke, r)) = Decidable s approved r

record Inv (s : AuthStore) (p : Page) : Type 0 where
  asks : Asks s p.confirm
  exports : p.export_open ≡ true → is_instance_admin s ≡ true

-- What may be asked of the backend by an event: of the request that the dialog of the page asks
-- about, or whose button was pressed.
abbrev pub Allowed : AuthStore → Page → Event → Effect → Type 0
Allowed s p e (ask_approve id) =
    (r : AccessRequest) × (p.confirm ≡ some (approve, r)) × (r.id ≡ id) × Approvable s r
Allowed s p e (ask_deny id) =
    (r : AccessRequest) × (e ≡ click_deny r) × (r.id ≡ id) × Decidable s pending r
Allowed s p e (ask_revoke id) =
    (r : AccessRequest) × (p.confirm ≡ some (revoke, r)) × (r.id ≡ id) × Decidable s approved r
Allowed s p e (ask_export q) = is_instance_admin s ≡ true
Allowed s p e refetch = Unit

Approvable-approve :
    (s : AuthStore) (p : Page) (r : AccessRequest)
    → controls s p (click_approve r) ≡ true
    → Approvable s r
unfolding controls
Approvable-approve s p r on = record {
  privileged = ground arith;
  waits = ground arith;
  other = ground arith;
}

Decidable-deny :
    (s : AuthStore) (p : Page) (r : AccessRequest)
    → controls s p (click_deny r) ≡ true
    → Decidable s pending r
unfolding controls
Decidable-deny s p r on = record { privileged = ground arith; state = ground arith }

Decidable-revoke :
    (s : AuthStore) (p : Page) (r : AccessRequest)
    → controls s p (click_revoke r) ≡ true
    → Decidable s approved r
unfolding controls
Decidable-revoke s p r on = record { privileged = ground arith; state = ground arith }

confirm-Inv : (s : AuthStore) (p : Page) → Inv s p → Inv s (handle_confirm p).0
unfolding handle_confirm
confirm-Inv s p v = elim (Option-cases p.confirm) [
  | inl e ↦ rw (e, handle_confirm) v
  | inr ((approve, r), e) ↦ rw (e, handle_confirm) (record { asks = v.asks; exports = v.exports })
  | inr ((revoke, r), e) ↦ rw (e, handle_confirm) (record { asks = v.asks; exports = v.exports })
]

confirm-Allowed :
    (s : AuthStore) (p : Page) → Inv s p → All (Allowed s p confirmed) (handle_confirm p).1
unfolding handle_confirm
confirm-Allowed s p v = by_confirm p.confirm refl v.asks
  where
    by_confirm :
        (o : Option (Verdict × AccessRequest))
        → p.confirm ≡ o
        → Asks s o
        → All (Allowed s p confirmed) (handle_confirm p).1
    by_confirm none e a = rw (e, handle_confirm) tt
    by_confirm (some (approve, r)) e a = rw (e, handle_confirm) ((r, refl, refl, a), tt)
    by_confirm (some (revoke, r)) e a = rw (e, handle_confirm) ((r, refl, refl, a), tt)

handle-Inv :
    (s : AuthStore) (p : Page) (e : Event) → controls s p e ≡ true → Inv s p → Inv s (handle e p).0
unfolding handle controls
handle-Inv s p (click_approve r) on v = record {
  asks = Approvable-approve s p r on;
  exports = v.exports;
}
handle-Inv s p (click_revoke r) on v = record {
  asks = Decidable-revoke s p r on;
  exports = v.exports;
}
handle-Inv s p confirmed on v = confirm-Inv s p v
handle-Inv s p open_export on v = record { asks = v.asks; exports = λ _. on }
handle-Inv s p Event.cancelled on v = record { asks = tt; exports = v.exports }
handle-Inv s p Event.close_export on v = record { asks = v.asks; exports = λ k. cc }
handle-Inv s p _ on v = record { asks = v.asks; exports = v.exports }

Step-Inv : {s : AuthStore} {p q : Page} {es : List Effect} → Step s p q es → Inv s p → Inv s q
Step-Inv {s} {p} (control e on) v = handle-Inv s p e on v
Step-Inv (approve_done w) v = record { asks = tt; exports = v.exports }
Step-Inv (revoke_done w) v = record { asks = tt; exports = v.exports }
Step-Inv (export_done w) v = record { asks = v.asks; exports = λ k. cc }
Step-Inv _ v = record { asks = v.asks; exports = v.exports }

Reach-Inv : {s : AuthStore} {p : Page} → Reach s p → Inv s p
Reach-Inv here = record { asks = tt; exports = λ k. cc }
Reach-Inv (then_ r st) = Step-Inv st (Reach-Inv r)

handle-Allowed :
    (s : AuthStore) (p : Page) (e : Event)
    → controls s p e ≡ true
    → Inv s p
    → All (Allowed s p e) (handle e p).1
unfolding handle controls
handle-Allowed s p (click_deny r) on v = ((r, refl, refl, Decidable-deny s p r on), tt)
handle-Allowed s p confirmed on v = confirm-Allowed s p v
handle-Allowed s p export_csv on v = (v.exports (ground arith), tt)
handle-Allowed s p Event.refresh on v = (tt, tt)
handle-Allowed s p _ on v = tt

-- However the page is used in a session: it asks to approve only the request that the dialog shows
-- for approval, only for an approver or an admin of the instance, if that request was waiting when
-- its button was pressed and was not made by the signed-in user; to revoke only the request that the
-- dialog shows for that, which was approved, and to deny only the one whose button is pressed, which
-- is waiting, both for such a user; and for an export only for an admin of the instance.
pub Reach-Allowed :
    {s : AuthStore} {p : Page}
    → Reach s p
    → (e : Event) → controls s p e ≡ true
    → All (Allowed s p e) (handle e p).1
Reach-Allowed {s} {p} r e on = handle-Allowed s p e on (Reach-Inv r)
