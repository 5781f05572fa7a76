-- ===== src/Roles/Verbs.antt =====
-- The buttons of the verbs of a rule.
use clustervision.Base.{
  String, ◌≡◌, refl, not, ◌&&◌, List, [], ◌∷◌, ◌==◌, eq_iff, includes, includes-append, filter,
  arith, if◌then◌else◌,
}
use clustervision.Yaml.{PolicyRule}
use clustervision.Roles.{toggle_verb}

includes-filter_other :
    (v w : String) (vs : List String)
    → includes (filter (λ x. not (x == v)) vs) w ≡ (includes vs w && not (v == w))
includes-filter_other v w [] = refl
includes-filter_other v w (x ∷ vs) =
    ground (arith, includes-filter_other v w vs, eq_iff x v, eq_iff x w, eq_iff v w)

includes_same : (vs : List String) (v w : String) → v ≡ w → includes vs v ≡ includes vs w
includes_same vs v w e = rw e refl

-- Pressing the button of a verb changes whether the rule has that verb, and nothing else: all other
-- verbs, the groups, the resources and their names stay.
toggle_verb-changes :
    (v w : String) (rule : PolicyRule)
    → (includes (toggle_verb v rule).verbs w
        ≡ (if v == w then not (includes rule.verbs w) else includes rule.verbs w))
      × ((toggle_verb v rule).api_groups ≡ rule.api_groups)
      × ((toggle_verb v rule).resources ≡ rule.resources)
      × ((toggle_verb v rule).resource_names ≡ rule.resource_names)
unfolding toggle_verb
toggle_verb-changes v w rule = (
  ground (
    arith,
    eq_iff v w,
    includes-filter_other v w rule.verbs,
    includes-append rule.verbs (v ∷ []) w,
    includes_same rule.verbs v w,
  ),
  refl,
  refl,
  refl,
)
