-- ===== src/Wizard/Controls.antt =====
-- The markup of CreateUserWizard.tsx: which controls each step shows, which of them are enabled, and
-- what they do. Texts, icons and styles are left out.
use clustervision.Base.{
  String, ◌≡◌, Bool, true, false, not, ◌&&◌, ◌||◌, List, [], ◌∷◌, Option, none, some, ◌==◌, trim,
  includes, any, is_empty, is_some, if◌then◌else◌, ◌<>◌,
}
use clustervision.Types.{UserType, UserWithCredentials}
use clustervision.Wizard.{
  Stage, identity, permissions, done, Scope, cluster, namespace, presets, pending, failed, ready,
  Wizard, Effect, download, is_sa, is_new, namespaces_with_pending, handle_step1_next, handle_close,
  handle_create, add_inline_ns, toggle_ns,
}
use clustervision.Wizard.Finishing.{
  is_cert, on_created, on_assigned, handle_copy_key, handle_copy_kubeconfig,
  handle_download_credentials, can_close, key_of, vault_of, data_of,
}

pub data Event : Type 0 where
  set_user_type : UserType → Event
  set_name set_sa_namespace set_new_namespace set_groups set_preset set_inline : String → Event
  toggles : String → Event
  set_scope : Scope → Event
  next : Bool → Event
  back create add_inline copy_key copy_kubeconfig download_kubeconfig : Event
  download_credentials : String → Event
  confirm : Bool → Event
  closes : Event

abbrev plain : Wizard → Wizard × List Effect
plain s = (s, [])

-- `downloadKubeconfig(generateKubeconfig.data!, name)`
abbrev download_of : Option String → String → List Effect
download_of none name = []
download_of (some y) name = download (name <> "-kubeconfig.yaml") y ∷ []

-- The handlers of the controls.
unfoldable pub handle : Event → Wizard → Wizard × List Effect
unfolding handle_close handle_create handle_copy_key handle_copy_kubeconfig
    handle_download_credentials
handle (set_user_type t) s = plain (record s { user_type = t })
handle (set_name v) s = plain (record s { name = v; name_error = "" })
handle (set_sa_namespace v) s = plain (record s { sa_namespace = v; new_namespace = "" })
handle (set_new_namespace v) s = plain (record s { new_namespace = v; new_namespace_error = "" })
handle (set_groups v) s = plain (record s { groups = v })
handle (next at_once) s = plain (handle_step1_next at_once s)
handle (set_preset p) s = plain (record s { preset = p })
handle (set_scope v) s = plain (record s { scope = v })
handle (toggles ns) s = plain (toggle_ns ns s)
handle (set_inline v) s = plain (record s { inline_ns_input = v; inline_ns_error = "" })
handle add_inline s = plain (add_inline_ns s)
handle back s = plain (record s { stage = identity })
handle create s = handle_create s
handle (confirm v) s = plain (record s { confirmed = v })
handle copy_key s = handle_copy_key s
handle copy_kubeconfig s = handle_copy_kubeconfig s
handle download_kubeconfig s = (s, download_of (data_of s.kubeconfig) s.name)
handle (download_credentials now) s = handle_download_credentials now s
handle closes s = handle_close s

-- The options of the namespace list: the namespaces, or `default` where there are none.
abbrev offered_ns : List String → List String
offered_ns [] = "default" ∷ []
offered_ns (n ∷ ns) = n ∷ ns

-- Step 1; the wizard can be closed by its backdrop, its cross and Cancel.
unfoldable pub identity_controls : List String → Wizard → Event → Bool
identity_controls namespaces s (set_user_type t) = true
identity_controls namespaces s (set_name v) = true
identity_controls namespaces s (set_sa_namespace v) =
    is_sa s.user_type && (v == "__new__" || includes (offered_ns namespaces) v)
identity_controls namespaces s (set_new_namespace v) = is_sa s.user_type && is_new s
identity_controls namespaces s (set_groups v) = is_cert s
identity_controls namespaces s (next at_once) = true
identity_controls namespaces s closes = true
identity_controls namespaces s _ = false

abbrev is_namespace : Scope → Bool
is_namespace namespace = true
is_namespace cluster = false

-- The list of namespaces is shown.
abbrev picks_namespaces : Wizard → Bool
picks_namespaces s = not (s.preset == "none") && is_namespace s.scope

-- `disabled` of the button Create user.
abbrev create_disabled : Wizard → Bool
create_disabled s =
    (not (s.preset == "none") && is_namespace s.scope && is_empty s.selected_ns)
    || (is_sa s.user_type && is_new s && trim s.new_namespace == "")

-- Step 2; a button that loads is disabled. Only the backdrop and the cross close it.
unfoldable pub permissions_controls : List String → Wizard → Event → Bool
unfolding can_close
permissions_controls namespaces s (set_preset p) = any (λ q. q.id == p) presets
permissions_controls namespaces s (set_scope v) = not (s.preset == "none")
permissions_controls namespaces s (toggles ns) =
    picks_namespaces s && includes (namespaces_with_pending namespaces s) ns
permissions_controls namespaces s (set_inline v) = picks_namespaces s
permissions_controls namespaces s add_inline = picks_namespaces s
permissions_controls namespaces s back = true
permissions_controls namespaces s create = not (create_disabled s || (s.creating || s.assigning))
permissions_controls namespaces s closes = can_close s
permissions_controls namespaces s _ = false

-- Step 3; Done, the backdrop and the cross close it.
unfoldable pub done_controls : Wizard → Event → Bool
unfolding can_close
done_controls s (confirm v) = is_cert s && not (is_some (vault_of s.credentials))
done_controls s copy_key = is_cert s && is_some (key_of s.credentials)
done_controls s (download_credentials now) = is_cert s && is_some (key_of s.credentials)
done_controls s copy_kubeconfig = is_some (data_of s.kubeconfig)
done_controls s download_kubeconfig = is_some (data_of s.kubeconfig)
done_controls s closes =
    can_close s || not (is_cert s && not s.confirmed && not (is_some (vault_of s.credentials)))
done_controls s _ = false

-- The controls of the step that is shown.
abbrev controls_of : Stage → List String → Wizard → Event → Bool
controls_of identity namespaces s e = identity_controls namespaces s e
controls_of permissions namespaces s e = permissions_controls namespaces s e
controls_of done namespaces s e = done_controls s e

unfoldable pub controls : List String → Wizard → Event → Bool
unfolding identity_controls permissions_controls done_controls
controls namespaces s e = controls_of s.stage namespaces s e

-- What step 3 shows of the private key.
unfoldable pub shown_key : Wizard → Option String
shown_key s = if is_cert s then key_of s.credentials else none

-- One step of the wizard: a control that is enabled, or an answer that was waited for.
pub data Step (namespaces : List String) (s : Wizard) : Wizard → List Effect → Type 0 where
  control :
      (e : Event) → controls namespaces s e ≡ true → Step namespaces s (handle e s).0 (handle e s).1
  created :
      (d : UserWithCredentials)
      → s.creating ≡ true
      → Step namespaces s (on_created d s).0 (on_created d s).1
  create_failed : s.creating ≡ true → Step namespaces s (record s { creating = false }) []
  assigned :
      (d : UserWithCredentials) (worked : Bool)
      → s.assigning ≡ true
      → Step namespaces s (on_assigned d worked s).0 (on_assigned d worked s).1
  generated :
      (y : String)
      → s.kubeconfig ≡ pending
      → Step namespaces s (record s { kubeconfig = ready y }) []
  generate_failed : s.kubeconfig ≡ pending → Step namespaces s (record s { kubeconfig = failed }) []
  copied_over : Step namespaces s (record s { copied = false }) []

pub data Reach (namespaces : List String) (s : Wizard) : Wizard → Type 0 where
  here : Reach namespaces s s
  then_ :
      {t u : Wizard} {es : List Effect}
      → Reach namespaces s t
      → Step namespaces t u es
      → Reach namespaces s u
