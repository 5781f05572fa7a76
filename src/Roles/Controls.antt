-- ===== src/Roles/Controls.antt =====
-- The markup of RoleEditorModal.tsx: which controls are shown and enabled, and what they do.
use clustervision.Base.{
  ℕ, String, ◌≡◌, Bool, true, not, ◌&&◌, ◌||◌, List, [], ◌∷◌, ◌++◌, Option, ◌==◌, trim, includes,
  is_empty, length, ltb, if◌then◌else◌,
}
use clustervision.Yaml.{PolicyRule, YamlError}
use clustervision.Roles.{
  Props, Editor, Effect, on_close, all_verbs, empty_rule, toggle_verb, set_api_groups,
  set_resources, is_edit, is_copy, update_rule, remove_rule, close_import, handle_import_yaml,
  rules_parsed, parse_failed, handle_save,
}

-- The controls of a `RuleRow`.
pub data Change : Type 0 where
  verb groups resources : String → Change

pub data Event : Type 0 where
  set_name set_namespace set_yaml : String → Event
  change : ℕ → Change → Event
  remove : ℕ → Event
  add toggle_import cancel_import apply save cancel : Event

unfoldable pub changed : Change → PolicyRule → PolicyRule
unfolding toggle_verb set_api_groups set_resources
changed (verb v) rule = toggle_verb v rule
changed (groups text) rule = set_api_groups text rule
changed (resources text) rule = set_resources text rule

abbrev plain : Editor → Editor × List Effect
plain s = (s, [])

unfoldable pub handle : Props → Event → Editor → Editor × List Effect
unfolding handle_import_yaml handle_save
handle p (set_name v) s = plain (record s { name = v })
handle p (set_namespace v) s = plain (record s { namespace = v })
handle p (change i c) s = plain (record s { rules = update_rule i (changed c) s.rules })
handle p (remove i) s = plain (record s { rules = remove_rule i s.rules })
handle p add s = plain (record s { rules = s.rules ++ empty_rule ∷ [] })
handle p toggle_import s =
    plain (if s.show_import then close_import s else record s { show_import = true })
handle p (set_yaml text) s = plain (record s { yaml_text = text })
handle p cancel_import s = plain (close_import s)
handle p apply s = handle_import_yaml s
handle p save s = (s, handle_save p s)
handle p cancel s = (s, on_close ∷ [])

-- `disabled={isEdit && !isCopy}`
abbrev is_fixed : Props → Bool
is_fixed p = is_edit p && not (is_copy p)

abbrev offers : Change → Bool
offers (verb v) = includes all_verbs v
offers _ = true

-- A button that loads is disabled.
unfoldable pub controls : Props → Editor → Event → Bool
controls p s (set_name v) = not (is_fixed p)
controls p s (set_namespace v) = not p.is_cluster && not (is_fixed p) && includes p.namespaces v
controls p s (change i c) = ltb i (length s.rules) && offers c
controls p s (remove i) = ltb i (length s.rules)
controls p s add = true
controls p s toggle_import = true
controls p s (set_yaml text) = s.show_import
controls p s cancel_import = s.show_import
controls p s apply = s.show_import && not (s.importing || trim s.yaml_text == "")
controls p s save = not (p.loading || (trim s.name == "" || is_empty s.rules))
controls p s cancel = true

-- One step of the editor: an enabled control, or the answer that an import waits for.
pub data Step (p : Props) (s : Editor) : Editor → Type 0 where
  control : (e : Event) → controls p s e ≡ true → Step p s (handle p e s).0
  parsed : (rs : List PolicyRule) → s.importing ≡ true → Step p s (rules_parsed rs s)
  refused : (e : Option YamlError) → s.importing ≡ true → Step p s (parse_failed e s)

pub data Reach (p : Props) (s : Editor) : Editor → Type 0 where
  here : Reach p s s
  then_ : {t u : Editor} → Reach p s t → Step p t u → Reach p s u
