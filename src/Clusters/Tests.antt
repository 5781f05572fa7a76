-- ===== src/Clusters/Tests.antt =====
-- Runs of the page of the clusters.
use clustervision.Base.{◌≡◌, refl, true, false, [], ◌∷◌, some, All, trim, arith, eq_iff}
use clustervision.Auth.{admin, AuthStore, is_instance_admin, role_for, ClusterStore}
use clustervision.Shell.{ClusterEntry}
use clustervision.Clusters.{
  Form, Page, opened, confirm_remove, click_remove, handle, controls, script_of, awaits, answered,
  Reach, here, used,
}
use clustervision.Clusters.Registering.{Rightful, Pressed, Reach-Rightful}
use clustervision.Clusters.Scripts.{page, late_script}

abbrev ada : AuthStore
ada = record {
  user = some (record { username = "ada"; roles = ("_instance", admin) ∷ [] });
  access_token = some "t";
}

abbrev local : ClusterStore
local = record { active_cluster = "local" }

abbrev prod : ClusterEntry
prod = record { name = "prod"; api_url = "https://prod"; is_local = false }

abbrev asking : Page
asking = record (opened local) { remove_target = some "prod" }

abbrev reach_asking : Reach ada local asking
unfolding controls handle is_instance_admin role_for
reach_asking = used here (prod ∷ []) (click_remove prod) refl

Reach-Rightful_example :
    All (Rightful ada (Pressed reach_asking) asking) (handle confirm_remove asking).1
Reach-Rightful_example = Reach-Rightful reach_asking confirm_remove

ada-is_instance_admin : is_instance_admin ada ≡ true
unfolding is_instance_admin role_for
ada-is_instance_admin = refl

late_script_example :
    (f : Form) × Reach ada local (page ada local f)
    × (f.cmd_name ≡ "west")
    × (f.script ≡ some "w")
    × (f.loading_script ≡ false)
    × (awaits (page ada local f) (script_of (trim "east") (some "e")) ≡ true)
    × ((answered (script_of (trim "east") (some "e")) (page ada local f)).add
        ≡ some (record f { script = some "e"; asked = [] }))
late_script_example =
    late_script ada local ada-is_instance_admin "east" "west" "e" "w"
      (unfold trim in ground (arith, eq_iff "east" ""))
      (unfold trim in ground (arith, eq_iff "west" ""))
      (unfold trim in ground (arith, eq_iff "east" "west"))
