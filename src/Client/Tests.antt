-- ===== src/Client/Tests.antt =====
-- The theorems of the HTTP client at a concrete history: two requests fail while a refresh runs.
use clustervision.Base.{ℕ, ◌+◌, ◌≤◌, ◌≡◌, refl, true, false, List, [], ◌∷◌, ◌++◌, none, some}
use clustervision.Auth.{AuthStore, ClusterStore}
use clustervision.Client.{
  Request, AxiosError, absent, with_msg, items, Waiter, Client, bearer, idle, Event, fails,
  refreshed, refresh_failed, run, step, on_failure, drain_queue, on_refreshed, format_api_error,
}
use clustervision.Client.Invariant.{idle-Inv}
use clustervision.Client.Settling.{count_failed, count_waiting, count_settled, run-settled}
use clustervision.Client.Liveness.{run-settles}
use clustervision.Client.Spec.{spec_run}
use clustervision.Client.Refines.{view, run_refines}
use clustervision.Base.Bags.{of_list}
use clustervision.Client.Refresh.{replays, with_token}

abbrev session : AuthStore
session = record { user = none; access_token = some "old" }

abbrev listing : ℕ → Request
listing n = record {
  id = n;
  method = "GET";
  url = "/users";
  params = [];
  authorization = bearer "old";
  retry = false;
}

abbrev expired : AxiosError
expired = record { status = some 401; detail = absent; message = "Request failed" }

abbrev history : List Event
history = fails (listing 1) expired ∷ fails (listing 2) expired ∷ refreshed "new" ∷ []

abbrev waits : ℕ → Waiter
waits n = record { request = record (listing n) { retry = true }; error = expired }

-- The client between the failures and the answer.
abbrev busy : Client
busy = record {
  is_refreshing = true;
  pending_queue = waits 2 ∷ [];
  refresher = some (waits 1);
  auth = session;
}

history_busy :
    (run (fails (listing 1) expired ∷ fails (listing 2) expired ∷ []) (idle session)).0 ≡ busy
unfolding run step on_failure idle
history_busy = refl

two_replays : replays (run history (idle session)).1 ≡ with_token "new" (waits 2 ∷ []) (waits 1)
unfolding run step on_failure on_refreshed drain_queue idle
two_replays = refl

validation_message :
    (format_api_error (record {
      status = some 422;
      detail = items (with_msg (some ("body" ∷ "name" ∷ [])) "too long" ∷ with_msg none "bad" ∷ []);
      message = "";
    })).message
    ≡ "name: too long — bad"
unfolding format_api_error
validation_message = refl

run-settled_example :
    count_failed 1 history + count_waiting 1 (idle session)
    ≡ count_settled 1 (run history (idle session)).1
      + count_waiting 1 (run history (idle session)).0
run-settled_example = run-settled 1 history (idle session) (idle-Inv session)

abbrev failures : List Event
failures = fails (listing 1) expired ∷ fails (listing 2) expired ∷ []

abbrev prod : ClusterStore
prod = record { active_cluster = "prod" }

run_refines_example :
    (view (run history (idle session)).0, of_list (run history (idle session)).1)
    ≡ spec_run history (view (idle session))
run_refines_example =
    run_refines history (idle session) (idle-Inv session) (tt, (tt, ((λ e. cc), tt)))

run-settles_example :
    count_failed 1 failures
    ≤ count_settled 1 (run (failures ++ refresh_failed ∷ []) (idle session)).1
run-settles_example = run-settles 1 session failures (refresh_failed ∷ []) refl
