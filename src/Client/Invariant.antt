-- ===== src/Client/Invariant.antt =====
-- What holds of the client between two events.
use clustervision.Base.{
  ℕ, suc, ◌≡◌, refl, true, false, List, [], ◌∷◌, Option, none, some, All, All-append, arith,
}
use clustervision.Client.{
  Request, AxiosError, Waiter, Client, Action, post_refresh, idle, on_failure, on_refreshed,
  on_refresh_failed, Event, fails, refreshed, refresh_failed, store_written, step, run,
}
use clustervision.Auth.{AuthStore}

abbrev pub Marked : Waiter → Type 0
Marked w = w.request.retry ≡ true

-- Requests wait only while one of them refreshes, and each of them carries the flag.
abbrev pub Refreshing : Option Waiter → Client → Type 0
Refreshing none c = (c.is_refreshing ≡ false) × (c.pending_queue ≡ [])
Refreshing (some w) c = (c.is_refreshing ≡ true) × Marked w

pub record Inv (c : Client) : Type 0 where
  pub refreshing : Refreshing c.refresher c
  pub queue : All Marked c.pending_queue

pub idle-Inv : (s : AuthStore) → Inv (idle s)
unfolding idle
idle-Inv s = record { refreshing = (refl, refl); queue = tt }

on_failure-Inv : (r : Request) (e : AxiosError) (c : Client) → Inv c → Inv (on_failure r e c).0
unfolding on_failure
on_failure-Inv r e c v = ground (
  arith,
  All-append Marked c.pending_queue (record { request = record r { retry = true }; error = e } ∷ [])
      v.queue,
)

-- Every event keeps the invariant.
pub step-Inv : (ev : Event) (c : Client) → Inv c → Inv (step ev c).0
unfolding step on_refreshed on_refresh_failed
step-Inv (fails r e) c v = on_failure-Inv r e c v
step-Inv (refreshed token) c v = ground arith
step-Inv refresh_failed c v = ground arith
step-Inv (store_written w) c v = ground arith

-- From a state in which requests wait only while a refresh is in flight, and every request that
-- waits carries the retry flag, every history leads to such a state.
pub run-Inv : (evs : List Event) (c : Client) → Inv c → Inv (run evs c).0
unfolding run
run-Inv [] c v = v
run-Inv (ev ∷ evs) c v = run-Inv evs (step ev c).0 (step-Inv ev c v)

-- The refreshes that are asked for.
abbrev pub count_refreshes : List Action → ℕ
count_refreshes [] = 0
count_refreshes (post_refresh ∷ xs) = suc (count_refreshes xs)
count_refreshes (_ ∷ xs) = count_refreshes xs
