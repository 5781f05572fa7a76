-- ===== src/Hooks.antt =====
-- frontend/src/hooks: the queries and mutations of the program. Of the query library a query is
-- its cache key, its call and its settings; a mutation is its call, and what its callbacks do.
pub mod Rbac
pub mod Users
pub mod AccessRequests
pub mod Accounts
pub mod Keys
pub mod Refreshing
mod Tests
use clustervision.Base.{ℕ, String, Bool, true, false, List, [], ◌∷◌, Option, none, some, ◌==◌, not}
use clustervision.Base.Json.{Value}
use clustervision.Api.{Call}

abbrev pub Key : Type 0
Key = List Value

pub record Query : Type 0 where
  pub key : Key
  pub call : Call
  pub enabled : Bool
  pub stale_time : Option ℕ
  pub refetch_interval : Option ℕ
  pub retry : Option Bool
  pub keep_previous : Bool

-- A query with the defaults of the options that a hook leaves out.
abbrev pub query : Key → Call → Option ℕ → Query
query key call stale_time = record {
  key = key;
  call = call;
  enabled = true;
  stale_time = stale_time;
  refetch_interval = none;
  retry = none;
  keep_previous = false;
}

-- `enabled: !!s`
abbrev pub present : String → Bool
present s = not (s == "")

pub data Effect : Type 0 where
  invalidate : Key → Effect
  toast_success toast_error : String → Effect
  set_cluster : String → Effect
  download : String → Effect
  -- the `onSuccess` that the caller gives, with the answer
  callback : Effect

pub record Mutation (Args : Type 0) : Type 0 where
  pub call : Args → Call
  pub on_success : Args → List Effect
  pub on_error : String → List Effect

-- `onError: (err: Error) => toast.error(err.message)`
abbrev toasts : String → List Effect
toasts message = toast_error message ∷ []

abbrev pub mutation : {Args : Type 0} → (Args → Call) → (Args → List Effect) → Mutation Args
mutation call on_success = record { call = call; on_success = on_success; on_error = toasts }
