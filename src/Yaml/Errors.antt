-- ===== src/Yaml/Errors.antt =====
-- Which entry an error of `parse_rules` is about.
use clustervision.Base.{
  ℕ, suc, ◌<>◌, String, ◌≡◌, ◌↔◌, refl, ◌⊎◌, inl, inr, List, [], ◌∷◌, Option, none, some, arith,
}
use clustervision.Base.Json.{Value, obj, Items, nil, cons, Fields, get}
use clustervision.Yaml.{
  PolicyRule, YamlError, not_a_mapping, bad_field, verbs_required, not_a_list, no_rules, Outcome,
  returns, throws, ◌>>=◌, as_string_array, coalesce, finish, parse_fields, parse_rule, parse_rules,
  parse_value, rules_value,
}

-- The rule that an error names, counted from 0.
abbrev About : YamlError → ℕ → Type 0
About (not_a_mapping i) n = i ≡ n
About (bad_field i f) n = i ≡ n
About (verbs_required i) n = i ≡ n
About _ n = ⊥

-- The first entry that is refused stands `before` entries from the start; those are accepted.
pub data FirstBad : Items → ℕ → YamlError → ℕ → Type 0 where
  here :
      {v : Value} {vs : Items} {i : ℕ} {e : YamlError}
      → parse_rule v i ≡ throws e
      → FirstBad (cons v vs) i e i
  later :
      {v : Value} {vs : Items} {i n : ℕ} {e : YamlError} (r : PolicyRule)
      → parse_rule v i ≡ returns r
      → FirstBad vs (suc i) e n
      → FirstBad (cons v vs) i e n

as_string_array-About :
    (v : Value) (f : String) (i : ℕ) (e : YamlError) → as_string_array v f i ≡ throws e → About e i
unfolding as_string_array
as_string_array-About v f i e h = ground arith

finish-About :
    (i : ℕ) (gs rs vs ns : List String) (e : YamlError)
    → finish i gs rs vs ns ≡ throws e
    → About e i
finish-About i gs rs [] ns e h = ground arith
finish-About i gs rs (v ∷ vs) ns e h = cc

>>=-eq-throws {ℓ κ} :
    {A : Type ℓ} {B : Type κ} (m : Outcome A) (f : A → Outcome B) {e : YamlError}
    → (m >>= f) ≡ throws e
    → (m ≡ throws e) ⊎ ((a : A) × (m ≡ returns a) × (f a ≡ throws e))
>>=-eq-throws (returns a) f h = inr (a, refl, h)
>>=-eq-throws (throws e) f h = inl (ground arith)

-- A field that is read first: its error, or that of what follows.
bind-About :
    (v : Value) (name : String) (i : ℕ) (f : List String → Outcome PolicyRule) (e : YamlError)
    → ((ss : List String) → f ss ≡ throws e → About e i)
    → (as_string_array v name i >>= f) ≡ throws e
    → About e i
bind-About v name i f e next h = elim (>>=-eq-throws (as_string_array v name i) f h) [
  | inl bad ↦ as_string_array-About v name i e bad
  | inr (ss, _, h') ↦ next ss h'
]

parse_fields-About : (r : Fields) (i : ℕ) (e : YamlError) → parse_fields r i ≡ throws e → About e i
unfolding parse_fields
parse_fields-About r i e h =
    bind-About (coalesce (get "apiGroups" r) (get "api_groups" r)) "apiGroups" i _ e
      (λ gs. bind-About (get "resources" r) "resources" i _ e (λ rs.
        bind-About (get "verbs" r) "verbs" i _ e (λ vs.
          bind-About (coalesce (get "resourceNames" r) (get "resource_names" r)) "resourceNames" i _
            e (λ ns. finish-About i gs rs vs ns e))))
      h

parse_rule-About : (v : Value) (i : ℕ) (e : YamlError) → parse_rule v i ≡ throws e → About e i
unfolding parse_rule
parse_rule-About (obj r) i e h = parse_fields-About r i e h
parse_rule-About _ i e h = ground arith

parse_rules-FirstBad :
    (vs : Items) (i : ℕ) (e : YamlError)
    → parse_rules vs i ≡ throws e
    → (n : ℕ) × FirstBad vs i e n × About e n
unfolding parse_rules
parse_rules-FirstBad nil i e h = cc
parse_rules-FirstBad (cons v vs) i e h = elim (>>=-eq-throws (parse_rule v i) _ h) [
  | inl bad ↦ (i, here bad, parse_rule-About v i e bad)
  | inr (r, good, h') ↦ elim (>>=-eq-throws (parse_rules vs (suc i)) _ h') [
    | inl bad ↦
        let (n, first, about) = parse_rules-FirstBad vs (suc i) e bad in
        (n, later r good first, about)
    | inr (rs, _, absurd_eq) ↦ cc
  ]
]

-- What can be wrong with an entry, as the text tells it after the number.
abbrev pub Complaint : String → Type 0
Complaint t =
    (t ≡ " must be a mapping (apiGroups/resources/verbs)")
    ⊎ (t ≡ ": \"verbs\" is required")
    ⊎ ((f : String) × (t ≡ ": \"" <> f <> "\" must be a string or a list of strings"))

-- The documents that are refused as a whole: `Expected a list of rules` exactly for those without
-- a list, `No rules found` exactly for the empty list.
parse_value-refused :
    (v : Value)
    → ((parse_value v ≡ throws not_a_list) ↔ (rules_value v ≡ none))
      × ((parse_value v ≡ throws no_rules) ↔ (rules_value v ≡ some nil))
unfolding parse_value
parse_value-refused v = by_items (rules_value v) refl
  where
    by_items :
        (o : Option Items)
        → rules_value v ≡ o
        → ((parse_value v ≡ throws not_a_list) ↔ (rules_value v ≡ none))
          × ((parse_value v ≡ throws no_rules) ↔ (rules_value v ≡ some nil))
    by_items none e = rw (e, parse_value) (ground arith)
    by_items (some nil) e = rw (e, parse_value) (ground arith)
    by_items (some (cons w ws)) e =
        rw (e, parse_value)
          (
            (λ h. absurd (parse_rules-FirstBad (cons w ws) 0 not_a_list h).2, λ h. cc),
            (λ h. absurd (parse_rules-FirstBad (cons w ws) 0 no_rules h).2, λ h. cc),
          )
