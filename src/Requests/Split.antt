-- ===== src/Requests/Split.antt =====
-- Reading back the value of a role in the list.
use Prim.Native.Char.{Char}
use Prim.Native.String.{String}
use text.Mathlib.Text.{◌==◌}
use text.Mathlib.TextEquality.{eq_iff}
use text.Mathlib.TextLemmas.{nil-append, cons-append, append-nil, append_assoc}
use clustervision.Base.{
  ◌≡◌, refl, sym, ap, ◌∙◌, Bool, true, false, not, ◌&&◌, [], ◌∷◌, ◌<>◌, Bool-cases, inl, inr, arith,
  if◌then◌else◌,
}
use clustervision.Types.{RoleKind, cluster_role, namespaced_role, role_kind_text}
use clustervision.Requests.{split_from, split_colons, role_option}

-- No two colons stand side by side; `half` tells that a colon stands before the text.
unfoldable pub is_single : Bool → String → Bool
is_single half String.[] = true
is_single half (String.◌∷◌ c s) =
    if String.◌∷◌ c "" == ":" then not half && is_single true s else is_single false s

-- The part that is read from a text without double colons.
rest_of : Bool → String → String → String
rest_of true cur s = cur <> (":" <> s)
rest_of false cur s = cur <> s

snoc-append :
    (cur : String) (c : Char) (s : String) → (cur <> String.◌∷◌ c "") <> s ≡ cur <> String.◌∷◌ c s
snoc-append cur c s =
    append_assoc cur (String.◌∷◌ c "") s
    ∙ ap (λ t. cur <> t) (cons-append c "" s ∙ ap (String.◌∷◌ c) (nil-append s))

cons-append_one : (c : Char) (s : String) → String.◌∷◌ c "" <> s ≡ String.◌∷◌ c s
cons-append_one c s = cons-append c "" s ∙ ap (String.◌∷◌ c) (nil-append s)

colon-cons : (c : Char) (s : String) → (String.◌∷◌ c "" == ":") ≡ true → ":" <> s ≡ String.◌∷◌ c s
colon-cons c s h =
    let e : String.◌∷◌ c "" ≡ ":" = ground (arith, eq_iff (String.◌∷◌ c "") ":") in
    ap (λ t. t <> s) (sym e) ∙ cons-append_one c s

split_from-single :
    (half : Bool) (cur s : String)
    → is_single half s ≡ true
    → split_from half cur s ≡ rest_of half cur s ∷ []
unfolding split_from is_single rest_of
split_from-single true cur String.[] h = refl
split_from-single false cur String.[] h = ap (λ t. t ∷ []) (sym (append-nil cur))
split_from-single true cur (String.◌∷◌ c s) h = elim (Bool-cases (String.◌∷◌ c "" == ":")) [
  | inl colon ↦ absurd (ff (rw (colon, is_single) at h))
  | inr other ↦
      rw (other, split_from)
        (split_from-single false (cur <> ":" <> String.◌∷◌ c "") s (rw (other, is_single) at h)
          ∙ ap (λ t. t ∷ [])
              (append_assoc cur (":" <> String.◌∷◌ c "") s
                ∙ ap (λ t. cur <> t)
                    (append_assoc ":" (String.◌∷◌ c "") s
                      ∙ ap (λ t. ":" <> t) (cons-append_one c s))))
]
  where
    ff : false ≡ true → ⊥
    ff k = cc
split_from-single false cur (String.◌∷◌ c s) h = elim (Bool-cases (String.◌∷◌ c "" == ":")) [
  | inl colon ↦
      rw (colon, split_from)
        (split_from-single true cur s (rw (colon, is_single) at h)
          ∙ ap (λ t. (cur <> t) ∷ []) (colon-cons c s colon))
  | inr other ↦
      rw (other, split_from)
        (split_from-single false (cur <> String.◌∷◌ c "") s (rw (other, is_single) at h)
          ∙ ap (λ t. t ∷ []) (snoc-append cur c s))
]

no_colon : String → Bool
no_colon String.[] = true
no_colon (String.◌∷◌ c s) = not (String.◌∷◌ c "" == ":") && no_colon s

both : (a b : Bool) → (not a && b) ≡ true → (a ≡ false) × (b ≡ true)
both false b h = (refl, h)
both true b h = absurd (ff h)
  where
    ff : false ≡ true → ⊥
    ff k = cc

split_from_prefix :
    (s t cur : String)
    → no_colon s ≡ true
    → split_from false cur (s <> t) ≡ split_from false (cur <> s) t
unfolding no_colon split_from
split_from_prefix String.[] t cur h = rw (nil-append, append-nil) refl
split_from_prefix (String.◌∷◌ c s) t cur h =
    let (other, rest) = both (String.◌∷◌ c "" == ":") (no_colon s) h in
    ap (split_from false cur) (cons-append c s t)
    ∙ rw (other, split_from)
        (split_from_prefix s t (cur <> String.◌∷◌ c "") rest
          ∙ ap (λ p. split_from false p t) (snoc-append cur c s))

abbrev colon : Char
colon = ":"

split_from_colons :
    (t cur : String) → split_from false cur ("::" <> t) ≡ cur ∷ split_from false "" t
unfolding split_from
split_from_colons t cur = ap (split_from false cur) (
    cons-append colon ":" t
    ∙ ap (String.◌∷◌ colon) (cons-append colon "" t ∙ ap (String.◌∷◌ colon) (nil-append t)))

kind-no_colon : (kind : RoleKind) → no_colon (role_kind_text kind) ≡ true
unfolding no_colon
kind-no_colon cluster_role = refl
kind-no_colon namespaced_role = refl

-- The value of a role in the list is split into its kind and its name, where the name has no two
-- colons side by side.
pub split_colons-role_option :
    (kind : RoleKind) (name : String)
    → is_single false name ≡ true
    → split_colons (role_option kind name) ≡ role_kind_text kind ∷ name ∷ []
unfolding split_colons rest_of
split_colons-role_option kind name h =
    split_from_prefix (role_kind_text kind) ("::" <> name) "" (kind-no_colon kind)
    ∙ split_from_colons name ("" <> role_kind_text kind)
    ∙ ap (λ t. t ∷ split_from false "" name) (nil-append (role_kind_text kind))
    ∙ ap (λ ts. role_kind_text kind ∷ ts)
        (split_from-single false "" name h ∙ ap (λ t. t ∷ []) (nil-append name))
