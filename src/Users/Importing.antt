-- ===== src/Users/Importing.antt =====
-- What the import form sends.
use clustervision.Base.{
  String, ◌≡◌, ◌≢◌, refl, Bool, true, false, List, [], Option, none, some, is_some, All, arith,
  eq_iff,
}
use clustervision.Types.{certificate, User}
use clustervision.Auth.{AuthStore, can_write}
use clustervision.Users.{
  SaRef, Page, handle_select_sa, import_payload, Effect, ask_import, ask_delete, navigate, Event,
  open_import, submit_import, close_import, set_type, set_namespace, select_sa, set_name,
  click_delete, click_kubeconfig, close_delete, confirm_delete, handle_delete, handle, controls,
  Answer, imported, deleted, answered, Reach, here, used, settled,
}

-- The page when a service account is picked from the list of the import, the type is changed to a
-- certificate, and a name is typed.
abbrev pub picked : (String → String) → SaRef → Page → Page
picked encode sa p = (handle encode (select_sa sa) p).0

abbrev pub retyped : (String → String) → SaRef → Page → Page
retyped encode sa p = (handle encode (set_type certificate) (picked encode sa p)).0

abbrev pub renamed : (String → String) → SaRef → String → Page → Page
renamed encode sa n p = (handle encode (set_name n) (retyped encode sa p)).0

-- On every page on which a listed service account can be picked: once picked, it is what the import
-- sends. When the type is changed to a certificate afterwards and a name is typed that is not empty,
-- which the open dialog allows, the namespace of that service account is still what is sent, with
-- the new name, and can be sent unless an import is pending; the field of the namespace is not there
-- any more.
pub import-namespaces :
    (s : AuthStore) (c : String) (encode : String → String) (unmanaged : List SaRef) (p : Page)
    (sa : SaRef) (n : String)
    → controls s c unmanaged p (select_sa sa) ≡ true
    → p.form.importing ≡ false
    → n ≢ ""
    → ((import_payload (picked encode sa p).form).name ≡ sa.name)
      × ((import_payload (picked encode sa p).form).namespace ≡ sa.namespace)
      × (controls s c unmanaged (picked encode sa p) (set_type certificate) ≡ true)
      × (controls s c unmanaged (retyped encode sa p) (set_name n) ≡ true)
      × (let q = renamed encode sa n p in
          (controls s c unmanaged q submit_import ≡ true)
          × ((v : String) → controls s c unmanaged q (set_namespace v) ≡ false)
          × ((import_payload q.form).user_type ≡ certificate)
          × ((import_payload q.form).name ≡ n)
          × ((import_payload q.form).namespace ≡ sa.namespace))
unfolding controls handle handle_select_sa import_payload
import-namespaces s c encode unmanaged p sa n on free given =
    let shown : p.import_open ≡ true = ground arith in
    (refl, refl, shown, shown, (ground (arith, eq_iff n ""), λ v. ground arith, refl, refl, refl))

-- What may be asked of the backend.
abbrev pub Authorized : AuthStore → String → Page → Effect → Type 0
Authorized s c p (navigate to) = Unit
Authorized s c p (ask_import i) = (can_write s c ≡ true) × (i.name ≢ "")
Authorized s c p (ask_delete a) =
    (can_write s c ≡ true)
    × ((u : User) × (p.to_delete ≡ some u)
        × (a.username ≡ u.name)
        × (a.user_type ≡ u.user_type)
        × (a.namespace ≡ some u.namespace))

abbrev Open : AuthStore → String → Bool → Type 0
Open s c false = Unit
Open s c true = can_write s c ≡ true

abbrev Inv : AuthStore → String → Page → Type 0
Inv s c p = Open s c p.import_open × Open s c (is_some p.to_delete)

module _ (s : AuthStore) (c : String) (encode : String → String) (unmanaged : List SaRef)
    (p : Page) where
  writes : (b : Bool) → b ≡ true → Open s c b → can_write s c ≡ true
  writes true e o = o
  writes false e o = cc

  handle_delete-Inv : (o : Option User) → Inv s c p → Inv s c (handle_delete p o).0
  unfolding handle_delete
  handle_delete-Inv none v = v
  handle_delete-Inv (some u) v = v

  handle-Inv :
      (e : Event) → controls s c unmanaged p e ≡ true → Inv s c p → Inv s c (handle encode e p).0
  unfolding handle controls
  handle-Inv open_import on v = (on, v.1)
  handle-Inv close_import on v = (tt, v.1)
  handle-Inv (click_delete u) on v = (v.0, on)
  handle-Inv close_delete on v = (v.0, tt)
  handle-Inv confirm_delete on v = handle_delete-Inv p.to_delete v
  handle-Inv _ on v = v

  answered-Inv : (a : Answer) → Inv s c p → Inv s c (answered a p)
  unfolding answered
  answered-Inv (imported true) v = (tt, v.1)
  answered-Inv (imported false) v = v
  answered-Inv (deleted true) v = (v.0, tt)
  answered-Inv (deleted false) v = v

  handle_delete-Authorized :
      (o : Option User)
      → p.to_delete ≡ o
      → Open s c (is_some o)
      → All (Authorized s c p) (handle_delete p o).1
  unfolding handle_delete
  handle_delete-Authorized none e w = tt
  handle_delete-Authorized (some u) e w = ((w, (u, e, refl, refl, refl)), tt)

  handle-Authorized :
      (e : Event)
      → controls s c unmanaged p e ≡ true
      → Inv s c p
      → All (Authorized s c p) (handle encode e p).1
  unfolding handle controls import_payload
  handle-Authorized submit_import on v =
      ((writes p.import_open (ground arith) v.0, ground (arith, eq_iff p.form.name "")), tt)
  handle-Authorized (click_kubeconfig u) on v = (tt, tt)
  handle-Authorized confirm_delete on v = handle_delete-Authorized p.to_delete refl v.1
  handle-Authorized _ on v = tt

Reach-Inv :
    {s : AuthStore} {c : String} {encode : String → String} {p : Page}
    → Reach s c encode p
    → Inv s c p
Reach-Inv here = (tt, tt)
Reach-Inv {s} {c} {encode} (used {p} r unmanaged e on) =
    handle-Inv s c encode unmanaged p e on (Reach-Inv r)
Reach-Inv {s} {c} {encode} (settled {p} r a w) = answered-Inv s c encode [] p a (Reach-Inv r)

-- However the page is used in a session on one cluster: a user is imported only by a user who may
-- write on the cluster, and with a name that is not empty; a user is deleted only by one who may
-- write, and what is deleted is the user that the dialog was opened for, with its type and its
-- namespace.
pub Reach-Authorized :
    {s : AuthStore} {c : String} {encode : String → String} {p : Page}
    → Reach s c encode p
    → (unmanaged : List SaRef) (e : Event) → controls s c unmanaged p e ≡ true
    → All (Authorized s c p) (handle encode e p).1
Reach-Authorized {s} {c} {encode} {p} r unmanaged e on =
    handle-Authorized s c encode unmanaged p e on (Reach-Inv r)
