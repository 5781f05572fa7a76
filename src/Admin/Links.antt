-- ===== src/Admin/Links.antt =====
-- frontend/src/components/admin/LinkManagedUserModal.tsx: the link of an account to a managed user.
use clustervision.Base.{
  String, ◌≡◌, refl, Bool, true, false, not, ◌&&◌, List, [], ◌∷◌, map, Option, none, some, ◌==◌,
  ◌<>◌, split, split-two, lacks, is_some, ap, sym, ◌∙◌, eq_iff, Bool-cases, inl, inr, arith,
  if◌then◌else◌,
}
use clustervision.Types.{User}
use clustervision.Admin.{LinkedUser}

-- The controls depend on `linking` and `unlinking`, which are the pending mutations.
pub record Dialog : Type 0 where
  pub selected_key : String
  pub linking : Bool
  pub unlinking : Bool

abbrev key : String → String → String
key namespace name = namespace <> "/" <> name

-- `userKey`
abbrev pub user_key : User → String
user_key u = key u.namespace u.name

abbrev key_of : Option LinkedUser → String
key_of none = ""
key_of (some l) = key l.namespace l.name

unfoldable pub opened : Option LinkedUser → Dialog
opened current = record { selected_key = key_of current; linking = false; unlinking = false }

-- The values of the list.
unfoldable options : List User → List String
options users = "" ∷ map user_key users

-- `const [namespace, name] = …`; the values of the list have two parts.
abbrev named : List String → Option LinkedUser
named (namespace ∷ name ∷ others) = some (record { name = name; namespace = namespace })
named _ = none

-- `handleSave`: the arguments of `setLink.mutate`.
unfoldable pub handle_save : Dialog → Option LinkedUser
handle_save d = if d.selected_key == "" then none else named (split b'/' d.selected_key)

pub data Event : Type 0 where
  select : String → Event
  unlink save : Event

unfoldable pub controls : Option LinkedUser → Dialog → Event → Bool
controls current d (select k) = true
controls current d unlink = is_some current && not d.unlinking
controls current d save = not (d.selected_key == "") && not d.linking

split-empty : split b'/' "" ≡ "" ∷ []
unfolding split
split-empty = refl

key-given :
    (namespace name : String)
    → split b'/' (key namespace name) ≡ namespace ∷ name ∷ []
    → (key namespace name == "") ≡ false
key-given namespace name two = elim (Bool-cases (key namespace name == "")) [
  | inr e ↦ e
  | inl e ↦
      let empty : key namespace name ≡ "" = ground (arith, eq_iff (key namespace name) "") in
      absurd (one_part (sym two ∙ ap (split b'/') empty ∙ split-empty))
]
  where
    one_part : namespace ∷ name ∷ [] ≡ "" ∷ [] → ⊥
    one_part k = cc

-- The dialog saves the managed user that was chosen in the list, and, when nothing was chosen, the
-- link that there is: for a name and a namespace without a slash.
pub handle_save-chosen :
    (d : Dialog) (namespace name : String)
    → lacks b'/' namespace ≡ true
    → lacks b'/' name ≡ true
    → d.selected_key ≡ key namespace name
    → handle_save d ≡ some (record { name = name; namespace = namespace })
unfolding handle_save
handle_save-chosen d namespace name h k e =
    let two = split-two "/" namespace name h k in rw (e, key-given namespace name two, two) refl
