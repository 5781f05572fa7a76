-- ===== src/Yaml/Accepts.antt =====
-- What the accepted documents give: the shape of the rules.
use mathlib.Core.Path.{subst}
use clustervision.Base.{
  ℕ, suc, String, ◌≡◌, refl, List, [], ◌∷◌, Option, none, some, All, arith, length,
}
use clustervision.Base.Json.{Value, obj, Items, nil, cons, Fields, get}
use clustervision.Yaml.{
  PolicyRule, Outcome, returns, throws, ◌>>=◌, as_string_array, coalesce, finish, parse_fields,
  parse_rule, parse_rules, parse_value, rules_value, from_items, Loaded, loaded, threw,
  invalid_yaml, parse_rules_yaml,
}

abbrev pub NonEmpty {ℓ} : {A : Type ℓ} → List A → Type 0
NonEmpty [] = ⊥
NonEmpty (x ∷ xs) = Unit

-- `resource_names` is left out rather than empty.
abbrev pub NamesPresent : Option (List String) → Type 0
NamesPresent none = Unit
NamesPresent (some ns) = NonEmpty ns

pub record IsWellFormed (r : PolicyRule) : Type 0 where
  pub groups : NonEmpty r.api_groups
  pub verbs : NonEmpty r.verbs
  pub names : NamesPresent r.resource_names

>>=-eq-returns {ℓ κ} :
    {A : Type ℓ} {B : Type κ} (m : Outcome A) (f : A → Outcome B) {b : B}
    → (m >>= f) ≡ returns b
    → (a : A) × (m ≡ returns a) × (f a ≡ returns b)
>>=-eq-returns (returns a) f h = (a, refl, h)
>>=-eq-returns (throws e) f h = cc

finish-IsWellFormed :
    (i : ℕ) (gs rs vs ns : List String) (r : PolicyRule)
    → finish i gs rs vs ns ≡ returns r
    → IsWellFormed r
finish-IsWellFormed i gs rs [] ns r h = cc
finish-IsWellFormed i [] rs (v ∷ vs) [] r h = ground arith
finish-IsWellFormed i [] rs (v ∷ vs) (n ∷ ns) r h = ground arith
finish-IsWellFormed i (g ∷ gs) rs (v ∷ vs) [] r h = ground arith
finish-IsWellFormed i (g ∷ gs) rs (v ∷ vs) (n ∷ ns) r h = ground arith

parse_fields-IsWellFormed :
    (fs : Fields) (i : ℕ) (r : PolicyRule) → parse_fields fs i ≡ returns r → IsWellFormed r
unfolding parse_fields
parse_fields-IsWellFormed fs i r h =
    let (gs, _, h₁) =
      >>=-eq-returns
        (as_string_array (coalesce (get "apiGroups" fs) (get "api_groups" fs)) "apiGroups" i) _ h in
    let (rs, _, h₂) = >>=-eq-returns (as_string_array (get "resources" fs) "resources" i) _ h₁ in
    let (vs, _, h₃) = >>=-eq-returns (as_string_array (get "verbs" fs) "verbs" i) _ h₂ in
    let (ns, _, h₄) =
      >>=-eq-returns
        (as_string_array (coalesce (get "resourceNames" fs) (get "resource_names" fs))
          "resourceNames" i)
        _ h₃ in
    finish-IsWellFormed i gs rs vs ns r h₄

parse_rule-IsWellFormed :
    (v : Value) (i : ℕ) (r : PolicyRule) → parse_rule v i ≡ returns r → IsWellFormed r
unfolding parse_rule
parse_rule-IsWellFormed (obj fs) i r h = parse_fields-IsWellFormed fs i r h
parse_rule-IsWellFormed _ i r h = cc

parse_rules-IsWellFormed :
    (vs : Items) (i : ℕ) (rules : List PolicyRule)
    → parse_rules vs i ≡ returns rules
    → All IsWellFormed rules
unfolding parse_rules
parse_rules-IsWellFormed nil i [] h = tt
parse_rules-IsWellFormed nil i (r ∷ rs) h = cc
parse_rules-IsWellFormed (cons v vs) i rules h =
    let (r, here, h₁) = >>=-eq-returns (parse_rule v i) _ h in
    let (rs, later, h₂) = >>=-eq-returns (parse_rules vs (suc i)) _ h₁ in
    let good : All IsWellFormed (r ∷ rs) =
      (parse_rule-IsWellFormed v i r here, parse_rules-IsWellFormed vs (suc i) rs later) in
    subst (All IsWellFormed) {x = r ∷ rs} (cc) good

-- The number of entries of a list value.
abbrev pub count_items : Items → ℕ
count_items nil = 0
count_items (cons v vs) = suc (count_items vs)

parse_rules-length :
    (vs : Items) (i : ℕ) (rules : List PolicyRule)
    → parse_rules vs i ≡ returns rules
    → length rules ≡ count_items vs
unfolding parse_rules
parse_rules-length nil i rules h = ground arith
parse_rules-length (cons v vs) i rules h =
    let (r, here, h₁) = >>=-eq-returns (parse_rule v i) _ h in
    let (rs, later, h₂) = >>=-eq-returns (parse_rules vs (suc i)) _ h₁ in
    ground (arith, parse_rules-length vs (suc i) rs later)

NonEmpty-of_length : {n : ℕ} (rules : List PolicyRule) → length rules ≡ suc n → NonEmpty rules
NonEmpty-of_length [] h = absurd (omega arith)
NonEmpty-of_length (r ∷ rs) h = tt

module _ (v : Value) (rules : List PolicyRule) where
  -- What an accepted list of entries gives.
  abbrev Accepted : Type 0
  Accepted =
      (vs : Items) × (rules_value v ≡ some vs)
      × (length rules ≡ count_items vs)
      × NonEmpty rules
      × All IsWellFormed rules

  of_items : (o : Option Items) → rules_value v ≡ o → from_items o ≡ returns rules → Accepted
  of_items none e h = cc
  of_items (some nil) e h = cc
  of_items (some (cons w ws)) e h = (
    cons w ws,
    e,
    parse_rules-length (cons w ws) 0 rules h,
    NonEmpty-of_length rules (parse_rules-length (cons w ws) 0 rules h),
    parse_rules-IsWellFormed (cons w ws) 0 rules h,
  )

-- A document that is accepted holds a non-empty list; there is one rule for each of its entries,
-- and every rule has at least one verb and one API group, and no empty list of resource names.
pub parse_rules_yaml-IsWellFormed :
    (load : String → Loaded) (text : String) (v : Value) (rules : List PolicyRule)
    → load text ≡ loaded v
    → parse_rules_yaml load text ≡ returns rules
    → (vs : Items) × (rules_value v ≡ some vs)
      × (length rules ≡ count_items vs)
      × NonEmpty rules
      × All IsWellFormed rules
unfolding parse_rules_yaml parse_value
parse_rules_yaml-IsWellFormed load text v rules l h =
    of_items v rules (rules_value v) refl (rw (l, parse_rules_yaml) at h)

-- The same, whatever was loaded.
pub parse_rules_yaml-returns :
    (load : String → Loaded) (text : String) (rules : List PolicyRule)
    → parse_rules_yaml load text ≡ returns rules
    → NonEmpty rules × All IsWellFormed rules
unfolding parse_rules_yaml
parse_rules_yaml-returns load text rules h = by_load (load text) refl
  where
    by_load : (l : Loaded) → load text ≡ l → NonEmpty rules × All IsWellFormed rules
    by_load (loaded v) e =
        let (vs, _, _, some_rule, formed) = parse_rules_yaml-IsWellFormed load text v rules e h in
        (some_rule, formed)
    by_load (threw m) e = absurd (refused (rw (e, parse_rules_yaml) at h))
      where
        refused : throws (invalid_yaml m) ≡ returns rules → ⊥
        refused k = cc
