-- ===== src/Rbac/Access.antt =====
-- components/rbac/NamespaceAccessPanel.tsx: who has access to a namespace, and the filters of the
-- table. `lower` is the language's `toLowerCase`.
use clustervision.Base.{
  String, ◌≡◌, refl, ap, Bool, true, false, ◌&&◌, ◌||◌, List, [], ◌∷◌, Option, ◌==◌, filter, All,
  All-filter, arith, num_eq,
}
use Prim.Native.Char.{code}

pub data SubjectKind : Type 0 where
  user group service_account : SubjectKind

pub record Entry : Type 0 where
  pub subject : String
  pub subject_kind : SubjectKind
  pub subject_namespace : Option String
  pub role : String
  pub role_kind : String
  pub binding : String
  pub scope : String

-- The panel; the empty text stands for all kinds.
pub record Panel : Type 0 where
  pub namespace : String
  pub search : String
  pub kind_filter : String

abbrev pub opened : Panel
opened = record { namespace = "default"; search = ""; kind_filter = "" }

abbrev kind_text : SubjectKind → String
kind_text user = "User"
kind_text group = "Group"
kind_text service_account = "ServiceAccount"

abbrev starts_with : String → String → Bool
starts_with s String.[] = true
starts_with String.[] (String.◌∷◌ d t) = false
starts_with (String.◌∷◌ c s) (String.◌∷◌ d t) = num_eq (code c) (code d) && starts_with s t

-- `s.includes(t)` on texts
abbrev has_part : String → String → Bool
has_part String.[] t = starts_with String.[] t
has_part (String.◌∷◌ c s) t = starts_with (String.◌∷◌ c s) t || has_part s t

unfoldable match_search : (String → String) → Panel → Entry → Bool
match_search lower p e = p.search == "" || has_part (lower e.subject) (lower p.search)

unfoldable match_kind : Panel → Entry → Bool
match_kind p e = p.kind_filter == "" || kind_text e.subject_kind == p.kind_filter

-- The rows of the table.
unfoldable filtered : (String → String) → Panel → List Entry → List Entry
filtered lower p es = filter (λ e. match_search lower p e && match_kind p e) es

pub data Event : Type 0 where
  set_namespace set_kind_filter set_search : String → Event

unfoldable pub handle : Event → Panel → Panel
handle (set_namespace ns) p = record p { namespace = ns }
handle (set_kind_filter k) p = record p { kind_filter = k }
handle (set_search v) p = record p { search = v }

-- Without a search and a kind every entry is shown, in any namespace.
filtered-all :
    (lower : String → String) (ns : String) (es : List Entry)
    → filtered lower (record opened { namespace = ns }) es ≡ es
unfolding filtered match_search match_kind
filtered-all lower ns [] = refl
filtered-all lower ns (e ∷ es) = ap (e ∷◌) (filtered-all lower ns es)

-- With a kind chosen, all rows are of that kind.
filtered-kind :
    (lower : String → String) (p : Panel) (es : List Entry)
    → (p.kind_filter == "") ≡ false
    → All (λ e. (kind_text e.subject_kind == p.kind_filter) ≡ true) (filtered lower p es)
unfolding filtered match_kind
filtered-kind lower p es chosen =
    All-filter (λ e. (kind_text e.subject_kind == p.kind_filter) ≡ true)
      (λ e. match_search lower p e && match_kind p e) es (λ e h. ground arith)
