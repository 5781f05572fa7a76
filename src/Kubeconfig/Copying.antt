-- ===== src/Kubeconfig/Copying.antt =====
-- The preview of the panel, and what is copied and downloaded from it.
use clustervision.Base.{
  String, ◌≡◌, refl, Bool, true, false, not, ◌&&◌, Option, none, some, ◌==◌, ◌<>◌, Bool-cases, inl,
  inr, if◌then◌else◌, ap,
}
use clustervision.Types.{User}
use clustervision.Kubeconfig.{
  Fetch, pending, ready, Props, Panel, selected_user, is_cert, auto_generate, user_changed,
  ns_rendered, key_rendered, select_key, handle,
}

pub data Preview : Type 0 where
  generating : Preview
  shows_text hint : String → Preview

abbrev hint_of : Panel → Option User → Preview
hint_of p none = hint "Select a user to preview"
hint_of p (some u) = hint (
    if is_cert p && not p.vault_enabled then "Paste your private key to generate" else "Loading...")

-- `generate.data`, if it is not empty.
abbrev text_of : Fetch → Option String
text_of (ready t) = if t == "" then none else some t
text_of _ = none

abbrev preview_of : Panel → Option String → Preview
preview_of p (some t) = shows_text t
preview_of p none = hint_of p (selected_user p)

abbrev is_pending : Fetch → Bool
is_pending pending = true
is_pending _ = false

unfoldable preview : Panel → Preview
preview p = if is_pending p.generate then generating else preview_of p (text_of p.generate)

-- `handleCopy`: what is written to the clipboard.
unfoldable handle_copy : Panel → Option String
handle_copy p = text_of p.generate

abbrev file : Option String → Option User → Option (String × String)
file (some t) (some u) = some (u.name <> "-kubeconfig.yaml", t)
file _ _ = none

-- `handleDownload`: the name of the file and its text.
unfoldable handle_download : Panel → Option (String × String)
handle_download p = file (text_of p.generate) (selected_user p)

ns_rendered-generate : (before : String) (p : Panel) → (ns_rendered before p).generate ≡ p.generate
unfolding ns_rendered auto_generate
ns_rendered-generate before p = elim (Bool-cases (before == p.namespace)) [
  | inl e ↦ rw e refl
  | inr e ↦ rw e refl
]

select_key-no_text :
    (props : Props) (p : Panel) (k : String)
    → (p.selected_key == k) ≡ false
    → text_of (handle props (select_key k) p).0.generate ≡ none
unfolding handle key_rendered user_changed
select_key-no_text props p k other =
    let next : Panel = record p { selected_key = k } in
    rw other
      (ap text_of (ns_rendered-generate next.namespace (user_changed next (auto_generate next))))

-- When another key is selected, no kubeconfig is left to be copied or downloaded.
select_key-copies_none :
    (props : Props) (p : Panel) (k : String)
    → (p.selected_key == k) ≡ false
    → let q = (handle props (select_key k) p).0 in
      (handle_copy q ≡ none) × (handle_download q ≡ none)
unfolding handle_copy handle_download
select_key-copies_none props p k other =
    let q = (handle props (select_key k) p).0 in
    let e = select_key-no_text props p k other in (e, ap (λ o. file o (selected_user q)) e)
