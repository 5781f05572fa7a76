-- ===== src/Yaml/Tests.antt =====
-- Runs of the parser, and its theorems at concrete documents.
use clustervision.Base.{String, String, ◌≡◌, refl, [], ◌∷◌, none, some, All, length}
use clustervision.Base.Json.{Value, str, num, arr, obj, Items, nil, cons, end, field}
use clustervision.Yaml.{
  PolicyRule, bad_field, message, returns, throws, Loaded, loaded, as_string_array, coalesce,
  parse_rule, parse_rules, all_strings, rules_value, parse_value, parse_rules_yaml,
}
use clustervision.Yaml.Accepts.{NonEmpty, IsWellFormed, count_items, parse_rules_yaml-IsWellFormed}
use clustervision.Yaml.Roundtrip.{snake, entries, manifest, parse_value-entries}

-- `- verbs: get`
abbrev short : Value
short = obj (field "verbs" (str "get") end)

abbrev reading : PolicyRule
reading = record { api_groups = "" ∷ []; resources = []; verbs = "get" ∷ []; resource_names = none }

abbrev any_load : String → Loaded
any_load text = loaded (arr (cons short nil))

short_parses : parse_value (arr (cons short nil)) ≡ returns (reading ∷ [])
unfolding parse_value rules_value parse_rules parse_rule as_string_array coalesce all_strings
short_parses = refl

bad_verbs :
    parse_value (arr (cons (obj (field "verbs" (num 3) end)) nil)) ≡ throws (bad_field 0 "verbs")
unfolding parse_value rules_value parse_rules parse_rule as_string_array coalesce all_strings
bad_verbs = refl

bad_text :
    message (bad_field 11 "verbs") ≡ "Rule 12: \"verbs\" must be a string or a list of strings"
unfolding message
bad_text = refl

parse_rules_yaml-IsWellFormed_example :
    (vs : Items) × (rules_value (arr (cons short nil)) ≡ some vs)
    × (length (reading ∷ []) ≡ count_items vs)
    × NonEmpty (reading ∷ [])
    × All IsWellFormed (reading ∷ [])
parse_rules_yaml-IsWellFormed_example =
    parse_rules_yaml-IsWellFormed any_load "- verbs: get" (arr (cons short nil)) (reading ∷ []) refl
      (unfold parse_rules_yaml parse_value rules_value parse_rules parse_rule as_string_array
          coalesce all_strings in
        refl)

parse_value-entries_example :
    (parse_value (arr (entries snake (reading ∷ []))) ≡ returns (reading ∷ []))
    × (parse_value (manifest snake (reading ∷ [])) ≡ returns (reading ∷ []))
parse_value-entries_example =
    parse_value-entries snake reading [] (record { groups = tt; verbs = tt; names = tt }, tt)
