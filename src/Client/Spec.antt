-- ===== src/Client/Spec.antt =====
-- What the client promises, without the order of the requests that wait: a refresh is in flight or
-- not, and whatever waits for it is answered by it.
use clustervision.Base.{true, not, ◌&&◌, List, [], ◌∷◌, Option, none, some, if◌then◌else◌}
use clustervision.Base.Bags.{Bag, of_list, with_all, union, map_bag}
use clustervision.Auth.{AuthStore, set_access_token, clear_auth}
use clustervision.Auth.Session.{apply}
use clustervision.Client.{
  Request, AxiosError, Waiter, Action, post_refresh, clear_cache, go_to_login, reject_formatted,
  format_api_error, unauthorized, answer, Event, fails, refreshed, refresh_failed, store_written,
}

-- The requests that wait, if a refresh is in flight, and the session.
pub record Spec : Type 0 where
  pub waiting : Option (Bag Waiter)
  pub session : AuthStore

abbrev marked : Request → AxiosError → Waiter
marked r e = record { request = record r { retry = true }; error = e }

-- A failure for want of a session: the request waits, and the first one starts the refresh.
unfoldable pub wait : Waiter → Spec → Spec × Bag Action
wait w s = elim s.waiting [
  | none ↦ (record s { waiting = some (of_list (w ∷ [])) }, of_list (post_refresh ∷ []))
  | some b ↦ (record s { waiting = some (with_all (w ∷ []) b) }, of_list [])
]

unfoldable pub spec_step : Event → Spec → Spec × Bag Action
spec_step (fails r e) s =
    if unauthorized e.status && not r.retry
    then wait (marked r e) s
    else (s, of_list (reject_formatted r (format_api_error e) ∷ []))
spec_step (refreshed token) s = elim s.waiting [
  | none ↦ (s, of_list [])
  | some b ↦ (
    record { waiting = none; session = set_access_token token s.session },
    map_bag (answer (some token)) b,
  )
]
spec_step refresh_failed s = elim s.waiting [
  | none ↦ (s, of_list [])
  | some b ↦ (
    record { waiting = none; session = clear_auth s.session },
    with_all (clear_cache ∷ go_to_login ∷ []) (map_bag (answer none) b),
  )
]
spec_step (store_written w) s = (record s { session = apply w s.session }, of_list [])

unfoldable pub spec_run : List Event → Spec → Spec × Bag Action
spec_run [] s = (s, of_list [])
spec_run (ev ∷ evs) s =
    let (s', now) = spec_step ev s in let (s'', later) = spec_run evs s' in (s'', union now later)
