-- ===== src/Client.antt =====
-- frontend/src/api/client.ts: the interceptors of the HTTP client. axios is not modelled: its calls
-- of the interceptors are the events, and what the interceptors ask of it and of the browser are
-- the actions.
pub mod Requests
pub mod Invariant
pub mod Settling
pub mod Refresh
pub mod Liveness
pub mod Spec
pub mod Refines
mod Tests
use clustervision.Base.{
  ℕ, zero, suc, String, ◌≡◌, Bool, true, false, not, ◌&&◌, List, [], ◌∷◌, ◌++◌, map, Option, none,
  some, ◌==◌, ◌<>◌, join, num_eq, if◌then◌else◌, is_some,
}
use clustervision.Base.Json.{Value, str}
use clustervision.Auth.{AuthStore, ClusterStore, set_access_token, clear_auth}
use clustervision.Auth.Session.{Write, apply}

-- A request's configuration; `retry` is the flag `_retry`.
pub record Request : Type 0 where
  pub id : ℕ
  pub method : String
  pub url : String
  pub params : List (String × Value)
  pub authorization : Option String
  pub retry : Bool

-- An entry of `detail` that is a list: an object with `msg`, and `loc` if that is a list, or
-- anything else as a text.
pub data DetailItem : Type 0 where
  with_msg : Option (List String) → String → DetailItem
  other : String → DetailItem

-- `err.response?.data?.detail`
pub data Detail : Type 0 where
  text : String → Detail
  items : List DetailItem → Detail
  absent : Detail

pub record AxiosError : Type 0 where
  pub status : Option ℕ
  pub detail : Detail
  pub message : String

pub record ApiError : Type 0 where
  pub message : String
  pub status : Option ℕ

abbrev rest_of : Option (List String) → List String
rest_of (some (_ ∷ parts)) = parts
rest_of _ = []

unfoldable item_message : DetailItem → String
unfolding join
item_message (with_msg loc msg) =
    let place = join "." (rest_of loc) in if place == "" then msg else place <> ": " <> msg
item_message (other s) = s

unfoldable detail_message : Detail → String → String
unfolding item_message join
detail_message (text s) message = s
detail_message (items ds) message = join " — " (map item_message ds)
detail_message absent message = if message == "" then "Request failed" else message

unfoldable pub format_api_error : AxiosError → ApiError
unfolding detail_message
format_api_error e = record { message = detail_message e.detail e.message; status = e.status }

-- `{ ...params, key: value }`
unfoldable pub with_param : String → Value → List (String × Value) → List (String × Value)
with_param k v [] = (k, v) ∷ []
with_param k v ((j, w) ∷ ps) = if j == k then (k, v) ∷ ps else (j, w) ∷ with_param k v ps

abbrev pub bearer : String → Option String
bearer token = some ("Bearer " <> token)

abbrev authorized : Option String → Request → Request
authorized none r = r
authorized (some token) r = if token == "" then r else record r { authorization = bearer token }

-- The request interceptor.
unfoldable pub on_request : ClusterStore → AuthStore → Request → Request
unfolding with_param
on_request c s r =
    let cluster = c.active_cluster in
    let scoped =
      if not (cluster == "") && not (cluster == "local")
      then record r { params = with_param "cluster" (str cluster) r.params }
      else r in
    authorized s.access_token scoped

-- A failed request that waits for the refresh, with its error.
pub record Waiter : Type 0 where
  pub request : Request
  pub error : AxiosError

-- The module's variables, the session store, and the request whose handler awaits the refresh.
pub record Client : Type 0 where
  pub is_refreshing : Bool
  pub pending_queue : List Waiter
  pub refresher : Option Waiter
  pub auth : AuthStore

pub data Action : Type 0 where
  post_refresh clear_cache go_to_login : Action
  replay : Request → Action
  reject_raw : Request → AxiosError → Action
  reject_formatted : Request → ApiError → Action

unfoldable pub idle : AuthStore → Client
idle s = record { is_refreshing = false; pending_queue = []; refresher = none; auth = s }

abbrev unauthorized : Option ℕ → Bool
unauthorized none = false
unauthorized (some n) = num_eq n 401

-- The response interceptor on a failure, up to its first `await` or its end.
unfoldable pub on_failure : Request → AxiosError → Client → Client × List Action
unfolding format_api_error
on_failure r e c =
    let marked : Request = record r { retry = true } in
    let w : Waiter = record { request = marked; error = e } in
    if unauthorized e.status && not r.retry
    then (if c.is_refreshing
        then (record c { pending_queue = c.pending_queue ++ w ∷ [] }, [])
        else (record c { is_refreshing = true; refresher = some w }, post_refresh ∷ []))
    else (c, reject_formatted r (format_api_error e) ∷ [])

-- What a callback of the queue does with the token.
unfoldable pub answer : Option String → Waiter → Action
answer none w = reject_raw w.request w.error
answer (some token) w =
    if token == ""
    then reject_raw w.request w.error
    else replay (record w.request { authorization = bearer token })

-- `drainQueue`: the actions of the callbacks, in order.
unfoldable pub drain_queue : Option String → List Waiter → List Action
unfolding answer
drain_queue token [] = []
drain_queue token (w ∷ ws) = answer token w ∷ drain_queue token ws

abbrev drained : AuthStore → Client
drained s = record { is_refreshing = false; pending_queue = []; refresher = none; auth = s }

-- The rest of the handler when `/auth/refresh` answers.
unfoldable pub on_refreshed : String → Client → Client × List Action
unfolding drain_queue set_access_token
on_refreshed token c = elim c.refresher [
  | none ↦ (c, [])
  | some w ↦ (
    drained (set_access_token token c.auth),
    drain_queue (some token) c.pending_queue
        ++ replay (record w.request { authorization = bearer token }) ∷ [],
  )
]

-- The rest of the handler when `/auth/refresh` fails.
unfoldable pub on_refresh_failed : Client → Client × List Action
unfolding drain_queue clear_auth
on_refresh_failed c = elim c.refresher [
  | none ↦ (c, [])
  | some w ↦ (
    drained (clear_auth c.auth),
    drain_queue none c.pending_queue
        ++ clear_cache ∷ go_to_login ∷ reject_raw w.request w.error ∷ [],
  )
]

-- What happens to the client; other parts of the program write the session store.
pub data Event : Type 0 where
  fails : Request → AxiosError → Event
  refreshed : String → Event
  refresh_failed : Event
  store_written : Write → Event

unfoldable pub step : Event → Client → Client × List Action
step (fails r e) c = on_failure r e c
step (refreshed token) c = on_refreshed token c
step refresh_failed c = on_refresh_failed c
step (store_written w) c = (record c { auth = apply w c.auth }, [])

unfoldable pub run : List Event → Client → Client × List Action
run [] c = (c, [])
run (ev ∷ evs) c = let (c', now) = step ev c in let (c'', later) = run evs c' in (c'', now ++ later)
