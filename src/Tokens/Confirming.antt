-- ===== src/Tokens/Confirming.antt =====
-- What is asked of the backend has been clicked and confirmed by a user who may write.
use clustervision.Base.{
  String, ◌≡◌, refl, Bool, true, false, List, ◌∷◌, Option, none, some, All, arith,
}
use clustervision.Auth.{AuthStore, can_write}
use clustervision.Tokens.{
  TokenHistoryEntry, SaTokenInfo, Page, Loaded, Effect, ask_delete, ask_clear, ask_revoke,
  ask_rotate, refetch, Event, click_clear, click_delete, click_revoke, click_rotate, confirm_clear,
  confirm_delete, confirm_revoke, confirm_rotate, controls, delete_shown, revoke_shown,
  rotate_shown, handle, Answer, cleared, deleted, revoked, rotated, answered, Reach, here, used,
  settled,
}

-- The event is one of the controls used.
pub data Used (e : Event) : List Event → Type 0 where
  last : (es : List Event) → Used e (e ∷ es)
  before : {es : List Event} (f : Event) → Used e es → Used e (f ∷ es)

-- What the dialogs show.
abbrev ShowsEntry : AuthStore → String → List Event → Option TokenHistoryEntry → Type 0
ShowsEntry s c es none = Unit
ShowsEntry s c es (some e) = Used (click_delete e) es × (can_write s c ≡ true)

abbrev ShowsToken :
    (SaTokenInfo → Event) → AuthStore → String → List Event → Option SaTokenInfo → Type 0
ShowsToken click s c es none = Unit
ShowsToken click s c es (some t) = Used (click t) es × (can_write s c ≡ true)

abbrev ShowsClear : AuthStore → String → List Event → Bool → Type 0
ShowsClear s c es false = Unit
ShowsClear s c es true = Used click_clear es × (can_write s c ≡ true)

-- Whatever dialog is open was opened by its button.
abbrev Inv : AuthStore → String → List Event → Page → Type 0
Inv s c es p =
    ShowsClear s c es p.clear_confirm
    × ShowsEntry s c es p.delete_target
    × ShowsToken click_revoke s c es p.revoke_target
    × ShowsToken click_rotate s c es p.rotate_target

-- The effect was clicked for, on a row with the same names, by a user who may write on the cluster.
abbrev pub Confirmed : AuthStore → String → List Event → Effect → Type 0
Confirmed s c es (ask_delete id) =
    (e : TokenHistoryEntry) × (e.id ≡ id) × Used (click_delete e) es × (can_write s c ≡ true)
Confirmed s c es ask_clear = Used click_clear es × (can_write s c ≡ true)
Confirmed s c es (ask_revoke secret ns) =
    (t : SaTokenInfo) × (t.secret_name ≡ secret)
    × (t.namespace ≡ ns)
    × Used (click_revoke t) es
    × (can_write s c ≡ true)
Confirmed s c es (ask_rotate secret sa ns) =
    (t : SaTokenInfo) × (t.secret_name ≡ secret)
    × (t.sa_name ≡ sa)
    × (t.namespace ≡ ns)
    × Used (click_rotate t) es
    × (can_write s c ≡ true)
Confirmed s c es refetch = Unit

module _ (s : AuthStore) (c : String) (es : List Event) (f : Event) where
  later_entry : (o : Option TokenHistoryEntry) → ShowsEntry s c es o → ShowsEntry s c (f ∷ es) o
  later_entry none a = tt
  later_entry (some e) a = (before f a.0, a.1)

  later_token :
      (click : SaTokenInfo → Event) (o : Option SaTokenInfo)
      → ShowsToken click s c es o
      → ShowsToken click s c (f ∷ es) o
  later_token click none a = tt
  later_token click (some t) a = (before f a.0, a.1)

  later_clear : (b : Bool) → ShowsClear s c es b → ShowsClear s c (f ∷ es) b
  later_clear false a = tt
  later_clear true a = (before f a.0, a.1)

  later : (p : Page) → Inv s c es p → Inv s c (f ∷ es) p
  later p (a, b, r, t) = (
    later_clear p.clear_confirm a,
    later_entry p.delete_target b,
    later_token click_revoke p.revoke_target r,
    later_token click_rotate p.rotate_target t,
  )

module _ (s : AuthStore) (c : String) (es : List Event) (p : Page) (v : Inv s c es p) where
  -- The buttons of the dialogs only mark their mutation as pending.
  delete_shown-Inv : (o : Option TokenHistoryEntry) → Inv s c es (delete_shown p o).0
  unfolding delete_shown
  delete_shown-Inv none = v
  delete_shown-Inv (some e) = v

  revoke_shown-Inv : (o : Option SaTokenInfo) → Inv s c es (revoke_shown p o).0
  unfolding revoke_shown
  revoke_shown-Inv none = v
  revoke_shown-Inv (some t) = v

  rotate_shown-Inv : (o : Option SaTokenInfo) → Inv s c es (rotate_shown p o).0
  unfolding rotate_shown
  rotate_shown-Inv none = v
  rotate_shown-Inv (some t) = v

  handle-Inv :
      (d : Loaded) (e : Event) → controls s c d p e ≡ true → Inv s c (e ∷ es) (handle e p).0
  unfolding handle controls
  handle-Inv d e on = by_event e on (later s c es e p v)
    where
      by_event :
          (e : Event)
          → controls s c d p e ≡ true
          → Inv s c (e ∷ es) p
          → Inv s c (e ∷ es) (handle e p).0
      by_event click_clear on (a, b, r, t) = ((last es, ground arith), b, r, t)
      by_event (click_delete e) on (a, b, r, t) = (a, (last es, ground arith), r, t)
      by_event (click_revoke t) on (a, b, r, q) = (a, b, (last es, ground arith), q)
      by_event (click_rotate t) on (a, b, r, q) = (a, b, r, (last es, ground arith))
      by_event Event.cancel_clear on (a, b, r, t) = (tt, b, r, t)
      by_event Event.cancel_delete on (a, b, r, t) = (a, tt, r, t)
      by_event Event.cancel_revoke on (a, b, r, t) = (a, b, tt, t)
      by_event Event.cancel_rotate on (a, b, r, t) = (a, b, r, tt)
      by_event confirm_delete on w =
          later s c es confirm_delete (delete_shown p p.delete_target).0
            (delete_shown-Inv p.delete_target)
      by_event confirm_revoke on w =
          later s c es confirm_revoke (revoke_shown p p.revoke_target).0
            (revoke_shown-Inv p.revoke_target)
      by_event confirm_rotate on w =
          later s c es confirm_rotate (rotate_shown p p.rotate_target).0
            (rotate_shown-Inv p.rotate_target)
      by_event _ on w = w

  answered-Inv : (a : Answer) → Inv s c es (answered a p)
  unfolding answered
  answered-Inv (cleared true) = (tt, v.1, v.2, v.3)
  answered-Inv (deleted true) = (v.0, tt, v.2, v.3)
  answered-Inv (revoked true) = (v.0, v.1, tt, v.3)
  answered-Inv (rotated true) = (v.0, v.1, v.2, tt)
  answered-Inv (cleared false) = v
  answered-Inv (deleted false) = v
  answered-Inv (revoked false) = v
  answered-Inv (rotated false) = v

  delete_shown-Confirmed :
      (o : Option TokenHistoryEntry)
      → ShowsEntry s c es o
      → All (Confirmed s c es) (delete_shown p o).1
  unfolding delete_shown
  delete_shown-Confirmed none a = tt
  delete_shown-Confirmed (some e) (u, w) = ((e, refl, u, w), tt)

  revoke_shown-Confirmed :
      (o : Option SaTokenInfo)
      → ShowsToken click_revoke s c es o
      → All (Confirmed s c es) (revoke_shown p o).1
  unfolding revoke_shown
  revoke_shown-Confirmed none a = tt
  revoke_shown-Confirmed (some t) (u, w) = ((t, refl, refl, u, w), tt)

  rotate_shown-Confirmed :
      (o : Option SaTokenInfo)
      → ShowsToken click_rotate s c es o
      → All (Confirmed s c es) (rotate_shown p o).1
  unfolding rotate_shown
  rotate_shown-Confirmed none a = tt
  rotate_shown-Confirmed (some t) (u, w) = ((t, refl, refl, refl, u, w), tt)

  clear-Confirmed : (b : Bool) → b ≡ true → ShowsClear s c es b → Confirmed s c es ask_clear
  clear-Confirmed true e a = a
  clear-Confirmed false e a = cc

  handle-Confirmed :
      (d : Loaded) (e : Event) → controls s c d p e ≡ true → All (Confirmed s c es) (handle e p).1
  unfolding handle controls
  handle-Confirmed d confirm_clear on = (clear-Confirmed p.clear_confirm (ground arith) v.0, tt)
  handle-Confirmed d confirm_delete on = delete_shown-Confirmed p.delete_target v.1
  handle-Confirmed d confirm_revoke on = revoke_shown-Confirmed p.revoke_target v.2
  handle-Confirmed d confirm_rotate on = rotate_shown-Confirmed p.rotate_target v.3
  handle-Confirmed d Event.refresh on = (tt, tt)
  handle-Confirmed d _ on = tt

Reach-Inv :
    {s : AuthStore} {c : String} {es : List Event} {p : Page} → Reach s c es p → Inv s c es p
Reach-Inv here = (tt, tt, tt, tt)
Reach-Inv {s} {c} (used {es} {p} r d e on) = handle-Inv s c es p (Reach-Inv r) d e on
Reach-Inv {s} {c} (settled {es} {p} r a w) = answered-Inv s c es p (Reach-Inv r) a

-- However the page is used in a session on one cluster, whatever the queries give and however the
-- mutations end: it asks to delete an entry of the history, to clear the history, or to revoke or
-- rotate a token, only for a user who may write on the cluster, after that user has pressed the
-- button of the row with the same id, secret, account and namespace, or the button to clear.
pub Reach-Confirmed :
    {s : AuthStore} {c : String} {es : List Event} {p : Page}
    → Reach s c es p
    → (d : Loaded) (e : Event) → controls s c d p e ≡ true
    → All (Confirmed s c es) (handle e p).1
Reach-Confirmed {s} {c} {es} {p} r d e on = handle-Confirmed s c es p (Reach-Inv r) d e on
