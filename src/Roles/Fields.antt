-- ===== src/Roles/Fields.antt =====
-- The text field of the resources of a rule: what it shows, and what is read back from it.
use clustervision.Base.{◌≡◌, ◌<>◌, ap, All, Plain, read-join_exact, read-join_comma}
use clustervision.Yaml.{PolicyRule}
use clustervision.Roles.{split_trimmed, set_resources, resources_text}

-- For resources that are not empty and have no comma or space: what the field shows is read back
-- as these resources, and so is that text with a comma typed at its end; the rule stays as it is,
-- and the comma is not shown.
pub set_resources-text :
    (rule : PolicyRule)
    → All Plain rule.resources
    → (set_resources (resources_text rule) rule ≡ rule)
      × (set_resources (resources_text rule <> ",") rule ≡ rule)
unfolding set_resources resources_text split_trimmed
set_resources-text rule h = (
  ap (λ rs. record rule { resources = rs }) (read-join_exact rule.resources h),
  ap (λ rs. record rule { resources = rs }) (read-join_comma rule.resources h),
)
