-- ===== src/Simulator/Tests.antt =====
-- Runs of the simulator.
use clustervision.Base.{◌≡◌, refl, true, false, [], none, some, trim}
use clustervision.Types.{CheckAccessRequest}
use clustervision.Simulator.{
  CheckAccessResult, Panel, opened, effective_resource, check_of, handle_check, set_user,
  click_check, controls, handle,
}
use clustervision.Simulator.Showing.{Reach, here, used, settled, calm-Shown}

-- A backend that allows everything.
abbrev lenient : CheckAccessRequest → CheckAccessResult
lenient q = record { allowed = true; reason = "" }

abbrev filled : Panel
filled = record opened { form = record opened.form { user = "alice" } }

abbrev get_pods : CheckAccessRequest
get_pods = record {
  user = "alice";
  verb = "get";
  resource = "pods";
  namespace = none;
  api_group = none;
}

abbrev checking : Panel
checking = record filled { asked = some get_pods }

abbrev reach_calm : Reach lenient true checking
unfolding controls handle handle_check effective_resource check_of trim
reach_calm =
    used (used here true [] (set_user "alice") refl refl refl) true [] click_check refl refl refl

abbrev reach_any : Reach lenient false checking
unfolding controls handle handle_check effective_resource check_of trim
reach_any =
    used (used here true [] (set_user "alice") refl refl refl) true [] click_check refl refl refl

abbrev answered_calm : Reach lenient true (record filled { result = some (lenient get_pods) })
unfolding handle
answered_calm = settled reach_calm get_pods refl

calm-Shown_example : lenient get_pods ≡ lenient (check_of filled.form)
calm-Shown_example = calm-Shown lenient (lenient get_pods) answered_calm refl
