-- ===== src/Roles/Editing.antt =====
-- The rules of an editor: changing one of them, and importing all of them.
use clustervision.Base.{
  ℕ, zero, suc, String, ◌≡◌, refl, ◌⊎◌, inl, inr, true, false, List, [], ◌∷◌, Option, none, some,
  is_some, num_eq, ltb, All, arith, if◌then◌else◌,
}
use clustervision.Yaml.{PolicyRule, YamlError, Outcome, returns, throws, Loaded, parse_rules_yaml}
use clustervision.Yaml.Accepts.{NonEmpty, IsWellFormed, parse_rules_yaml-returns}
use clustervision.Roles.{
  Editor, update_rule, remove_rule, close_import, rules_parsed, parse_failed, finish_import,
}

abbrev pub at : ℕ → List PolicyRule → Option PolicyRule
at n [] = none
at zero (x ∷ xs) = some x
at (suc n) (x ∷ xs) = at n xs

abbrev mapped : (PolicyRule → PolicyRule) → Option PolicyRule → Option PolicyRule
mapped f none = none
mapped f (some x) = some (f x)

at-update_rule :
    (i j : ℕ) (f : PolicyRule → PolicyRule) (rules : List PolicyRule)
    → at j (update_rule i f rules) ≡ (if num_eq i j then mapped f (at j rules) else at j rules)
unfolding update_rule
at-update_rule i j f [] = ground arith
at-update_rule zero zero f (x ∷ xs) = ground arith
at-update_rule zero (suc j) f (x ∷ xs) = ground arith
at-update_rule (suc i) zero f (x ∷ xs) = ground arith
at-update_rule (suc i) (suc j) f (x ∷ xs) = ground (arith, at-update_rule i j f xs)

at-remove_rule :
    (i j : ℕ) (rules : List PolicyRule)
    → at j (remove_rule i rules) ≡ (if ltb j i then at j rules else at (suc j) rules)
unfolding remove_rule
at-remove_rule i j [] = ground arith
at-remove_rule zero j (x ∷ xs) = ground arith
at-remove_rule (suc i) zero (x ∷ xs) = ground arith
at-remove_rule (suc i) (suc j) (x ∷ xs) = ground (arith, at-remove_rule i j xs)

-- Changing the rule at one place changes that rule and no other, and removing it leaves the rules
-- before it where they are and moves those after it up by one.
at-edited :
    (i j : ℕ) (f : PolicyRule → PolicyRule) (rules : List PolicyRule)
    → (at j (update_rule i f rules) ≡ (if num_eq i j then mapped f (at j rules) else at j rules))
      × (at j (remove_rule i rules) ≡ (if ltb j i then at j rules else at (suc j) rules))
at-edited i j f rules = (at-update_rule i j f rules, at-remove_rule i j rules)

-- An import that was accepted: all rules are replaced.
pub record Imported (s t : Editor) : Type 0 where
  pub any_rule : NonEmpty t.rules
  pub well_formed : All IsWellFormed t.rules
  pub closed : t.show_import ≡ false
  pub no_error : t.yaml_error ≡ none

-- An import that was refused: nothing is lost, and an error is shown.
pub record Refused (s t : Editor) : Type 0 where
  pub rules : t.rules ≡ s.rules
  pub text : t.yaml_text ≡ s.yaml_text
  pub panel : t.show_import ≡ s.show_import
  pub error : is_some t.yaml_error ≡ true

finish_import-Refused : (e : YamlError) (s : Editor) → Refused s (finish_import (throws e) s)
unfolding finish_import parse_failed
finish_import-Refused e s = record { rules = refl; text = refl; panel = refl; error = refl }

finish_import-Imported :
    (rules : List PolicyRule) (s : Editor)
    → NonEmpty rules
    → All IsWellFormed rules
    → Imported s (finish_import (returns rules) s)
unfolding finish_import rules_parsed close_import
finish_import-Imported rules s some_rule formed = record {
  any_rule = some_rule;
  well_formed = formed;
  closed = refl;
  no_error = refl;
}

-- Whatever text is imported, and whatever the YAML library makes of it, the import ends in one of
-- two ways. Either the rules are replaced by one rule or more, each with a verb and an API group,
-- and the panel is closed without an error; or rules, text and panel stay and an error is shown.
finish_import-outcomes :
    (load : String → Loaded) (s : Editor)
    → let t = finish_import (parse_rules_yaml load s.yaml_text) s in
      (Imported s t ⊎ Refused s t)
      × (t.importing ≡ false)
      × (t.name ≡ s.name)
      × (t.namespace ≡ s.namespace)
unfolding finish_import rules_parsed parse_failed close_import
finish_import-outcomes load s = by_outcome (parse_rules_yaml load s.yaml_text) refl
  where
    by_outcome :
        (o : Outcome (List PolicyRule))
        → parse_rules_yaml load s.yaml_text ≡ o
        → (Imported s (finish_import o s) ⊎ Refused s (finish_import o s))
          × ((finish_import o s).importing ≡ false)
          × ((finish_import o s).name ≡ s.name)
          × ((finish_import o s).namespace ≡ s.namespace)
    by_outcome (returns rules) e =
        let (some_rule, formed) = parse_rules_yaml-returns load s.yaml_text rules e in
        (inl (finish_import-Imported rules s some_rule formed), refl, refl, refl)
    by_outcome (throws err) e = (inr (finish_import-Refused err s), refl, refl, refl)
