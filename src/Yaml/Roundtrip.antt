-- ===== src/Yaml/Roundtrip.antt =====
-- Rules written out as a document, and read back.
use clustervision.Base.{ℕ, suc, String, ◌≡◌, refl, List, [], ◌∷◌, Option, none, some, All}
use clustervision.Base.Json.{Value, str, arr, obj, Items, nil, cons, Fields, end, field, strings}
use clustervision.Yaml.{
  PolicyRule, returns, all_strings, as_string_array, coalesce, parse_rule, parse_rules, parse_value,
  rules_value,
}
use clustervision.Yaml.Accepts.{NonEmpty, NamesPresent, IsWellFormed}

-- How a manifest spells the two compound keys.
pub data Spelling : Type 0 where
  camel snake : Spelling

abbrev groups_key : Spelling → String
groups_key camel = "apiGroups"
groups_key snake = "api_groups"

abbrev names_key : Spelling → String
names_key camel = "resourceNames"
names_key snake = "resource_names"

abbrev names_field : Spelling → Option (List String) → Fields
names_field sp none = end
names_field sp (some ns) = field (names_key sp) (arr (strings ns)) end

-- A rule as an entry of a manifest.
abbrev pub entry : Spelling → PolicyRule → Value
entry sp r = obj (
    field (groups_key sp) (arr (strings r.api_groups)) (
      field "resources" (arr (strings r.resources))
        (field "verbs" (arr (strings r.verbs)) (names_field sp r.resource_names))))

abbrev pub entries : Spelling → List PolicyRule → Items
entries sp [] = nil
entries sp (r ∷ rs) = cons (entry sp r) (entries sp rs)

-- A whole manifest: other keys, then `rules`.
abbrev pub manifest : Spelling → List PolicyRule → Value
manifest sp rs = obj (field "kind" (str "Role") (field "rules" (arr (entries sp rs)) end))

all_strings-strings : (ss : List String) → all_strings (strings ss) ≡ some ss
unfolding all_strings
all_strings-strings [] = refl
all_strings-strings (s ∷ ss) = rw (all_strings-strings ss)

-- The cases are split by the spelling and by whether there are names.
parse_parts :
    (sp : Spelling) (g v : String) (gs rs vs : List String) (ns : Option (List String)) (i : ℕ)
    → NamesPresent ns
    → let r : PolicyRule = record {
      api_groups = g ∷ gs;
      resources = rs;
      verbs = v ∷ vs;
      resource_names = ns;
    } in
      parse_rule (entry sp r) i ≡ returns r
unfolding parse_rule coalesce as_string_array
parse_parts camel g v gs rs vs none i h =
    simp (all_strings-strings (g ∷ gs), all_strings-strings rs, all_strings-strings (v ∷ vs))
parse_parts camel g v gs rs vs (some []) i h = elim h [ ]
parse_parts camel g v gs rs vs (some (n ∷ ns)) i h = simp (
  all_strings-strings (g ∷ gs),
  all_strings-strings rs,
  all_strings-strings (v ∷ vs),
  all_strings-strings (n ∷ ns),
)
parse_parts snake g v gs rs vs none i h =
    simp (all_strings-strings (g ∷ gs), all_strings-strings rs, all_strings-strings (v ∷ vs))
parse_parts snake g v gs rs vs (some []) i h = elim h [ ]
parse_parts snake g v gs rs vs (some (n ∷ ns)) i h = simp (
  all_strings-strings (g ∷ gs),
  all_strings-strings rs,
  all_strings-strings (v ∷ vs),
  all_strings-strings (n ∷ ns),
)

parse_entry :
    (sp : Spelling) (i : ℕ) (gs rs vs : List String) (ns : Option (List String))
    → NonEmpty gs
    → NonEmpty vs
    → NamesPresent ns
    → let r : PolicyRule = record {
      api_groups = gs;
      resources = rs;
      verbs = vs;
      resource_names = ns;
    } in
      parse_rule (entry sp r) i ≡ returns r
parse_entry sp i [] rs vs ns g v n = elim g [ ]
parse_entry sp i (g ∷ gs) rs [] ns _ v n = elim v [ ]
parse_entry sp i (g ∷ gs) rs (v ∷ vs) ns _ _ n = parse_parts sp g v gs rs vs ns i n

parse_entries :
    (sp : Spelling) (rs : List PolicyRule) (i : ℕ)
    → All IsWellFormed rs
    → parse_rules (entries sp rs) i ≡ returns rs
unfolding parse_rules
parse_entries sp [] i h = refl
parse_entries sp (r ∷ rs) i (p, h) = simp (
  parse_entry sp i r.api_groups r.resources r.verbs r.resource_names p.groups p.verbs p.names,
  parse_entries sp rs (suc i) h,
)

-- Rules that are well formed, at least one of them, come back unchanged from the document that
-- lists them, bare or under `rules` in a manifest, in either spelling of the compound keys.
pub parse_value-entries :
    (sp : Spelling) (r : PolicyRule) (rs : List PolicyRule)
    → All IsWellFormed (r ∷ rs)
    → (parse_value (arr (entries sp (r ∷ rs))) ≡ returns (r ∷ rs))
      × (parse_value (manifest sp (r ∷ rs)) ≡ returns (r ∷ rs))
unfolding parse_value rules_value
parse_value-entries sp r rs h = (parse_entries sp (r ∷ rs) 0 h, parse_entries sp (r ∷ rs) 0 h)
