-- ===== src/Admin/Vault.antt =====
-- frontend/src/components/admin/VaultConfigSection.tsx: the connection to Vault. The status is the
-- answer of the query; the texts of the labels are left out.
use clustervision.Base.{
  String, ◌≡◌, refl, Bool, true, false, not, ◌&&◌, List, [], ◌∷◌, Option, none, some, ◌==◌, get_or,
  if◌then◌else◌, Option-cases, inl, inr, arith, ◌∙◌,
}
use clustervision.Types.{VaultConfig}

-- api/vault.ts
pub record VaultStatus : Type 0 where
  pub enabled : Bool
  pub addr : Option String
  pub mount : Option String
  pub base_path : Option String
  pub namespace : Option String
  pub tls_skip_verify : Option Bool
  pub healthy : Option Bool
  pub error : Option String

abbrev pub default_config : VaultConfig
default_config = record {
  addr = "";
  token = "";
  mount = "secret";
  base_path = "clustervision/users";
  namespace = "";
  tls_skip_verify = false;
}

pub record Section : Type 0 where
  pub editing : Bool
  pub form : VaultConfig
  pub configuring : Bool
  pub disabling : Bool

abbrev pub opened : Section
opened = record { editing = false; form = default_config; configuring = false; disabling = false }

-- What `handleEdit` fills the form with.
unfoldable pub form_of : Option VaultStatus → VaultConfig
form_of none = default_config
form_of (some s) = record {
  addr = get_or s.addr "";
  token = "";
  mount = get_or s.mount "secret";
  base_path = get_or s.base_path "clustervision/users";
  namespace = get_or s.namespace "";
  tls_skip_verify = get_or s.tls_skip_verify false;
}

-- `StringField`
pub data Key : Type 0 where
  addr token mount base_path namespace : Key

-- `{ ...f, [key]: v }`, and `form[key]`
unfoldable set_field : Key → String → VaultConfig → VaultConfig
set_field addr v f = record f { addr = v }
set_field token v f = record f { token = v }
set_field mount v f = record f { mount = v }
set_field base_path v f = record f { base_path = v }
set_field namespace v f = record f { namespace = v }

unfoldable pub field_of : Key → VaultConfig → String
field_of addr f = f.addr
field_of token f = f.token
field_of mount f = f.mount
field_of base_path f = f.base_path
field_of namespace f = f.namespace

pub data Event : Type 0 where
  edit cancel save disable : Event
  type_in : Key → String → Event
  set_tls : Bool → Event

pub data Effect : Type 0 where
  ask_configure : VaultConfig → Effect
  ask_disable : Effect

abbrev is_enabled : Option VaultStatus → Bool
is_enabled none = false
is_enabled (some s) = s.enabled

-- The controls, once the status is loaded.
unfoldable controls : Option VaultStatus → Section → Event → Bool
controls st s disable = is_enabled st && not s.editing && not s.disabling
controls st s edit = not s.editing
controls st s save = s.editing && not (s.form.addr == "") && not s.configuring
controls st s _ = s.editing

unfoldable pub handle : Option VaultStatus → Event → Section → Section × List Effect
unfolding form_of set_field
handle st edit s = (record s { form = form_of st; editing = true }, [])
handle st cancel s = (record s { editing = false }, [])
handle st (type_in k v) s = (record s { form = set_field k v s.form }, [])
handle st (set_tls b) s = (record s { form = record s.form { tls_skip_verify = b } }, [])
handle st save s = (record s { configuring = true }, ask_configure s.form ∷ [])
handle st disable s = (record s { disabling = true }, ask_disable ∷ [])

-- The answer to the new connection: a success ends the editing, whether Vault is healthy or not.
unfoldable configured : Bool → Section → Section
configured ok s = record s { configuring = false; editing = if ok then false else s.editing }

-- What is typed in a field: the last text, if any.
abbrev same_key : Key → Key → Bool
same_key addr addr = true
same_key token token = true
same_key mount mount = true
same_key base_path base_path = true
same_key namespace namespace = true
same_key _ _ = false

abbrev pub typed : Key → List (Key × String) → Option String
typed k [] = none
typed k ((j, v) ∷ es) = elim (typed k es) [
  | some w ↦ some w
  | none ↦ if same_key j k then some v else none
]

-- The section after texts are typed in the fields of the form.
abbrev pub type_all : Option VaultStatus → List (Key × String) → Section → Section
type_all st [] s = s
type_all st ((k, v) ∷ es) s = type_all st es (handle st (type_in k v) s).0

field_of-set_field :
    (k j : Key) (v : String) (f : VaultConfig)
    → field_of k (set_field j v f) ≡ (if same_key j k then v else field_of k f)
unfolding field_of set_field
field_of-set_field addr addr v f = refl
field_of-set_field token token v f = refl
field_of-set_field mount mount v f = refl
field_of-set_field base_path base_path v f = refl
field_of-set_field namespace namespace v f = refl
field_of-set_field k j v f = ground arith

tls-set_field :
    (k : Key) (v : String) (f : VaultConfig) → (set_field k v f).tls_skip_verify ≡ f.tls_skip_verify
unfolding set_field
tls-set_field k v f = ground arith

if-field :
    (k : Key) (b : Bool) (v : String) (o : String)
    → (if b then v else o) ≡ get_or (if b then some v else none) o
if-field k true v o = refl
if-field k false v o = refl

type_all-typed :
    (st : Option VaultStatus) (es : List (Key × String)) (s : Section) (k : Key)
    → (field_of k (type_all st es s).form ≡ get_or (typed k es) (field_of k s.form))
      × ((type_all st es s).form.tls_skip_verify ≡ s.form.tls_skip_verify)
unfolding handle
type_all-typed st [] s k = (refl, refl)
type_all-typed st ((j, v) ∷ es) s k =
    let t : Section = record s { form = set_field j v s.form } in
    let (h, q) = type_all-typed st es t k in
    (
      elim (Option-cases (typed k es)) [
        | inl e ↦ rw e (
            rw e at h
            ∙ field_of-set_field k j v s.form
            ∙ if-field k (same_key j k) v (field_of k s.form))
        | inr (w, e) ↦ rw e (rw e at h)
      ],
      q ∙ tls-set_field j v s.form,
    )

-- After the button to edit and any texts typed in the fields, the form that is saved has in every
-- field the last text typed there; a field in which nothing was typed has the value of the status,
-- or the default if the status has none, and the token, which the status does not have, is empty.
pub save-typed :
    (st : Option VaultStatus) (es : List (Key × String)) (s : Section) (k : Key)
    → (c : VaultConfig) × ((handle st save (type_all st es (handle st edit s).0)).1
        ≡ ask_configure c ∷ [])
      × (field_of k c ≡ get_or (typed k es) (field_of k (form_of st)))
      × (c.tls_skip_verify ≡ (form_of st).tls_skip_verify)
unfolding handle
save-typed st es s k =
    let t : Section = record s { form = form_of st; editing = true } in
    let (h, q) = type_all-typed st es t k in ((type_all st es t).form, refl, h, q)
