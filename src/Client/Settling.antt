-- ===== src/Client/Settling.antt =====
-- Every failed request is settled once.
use clustervision.Base.{
  ℕ, ◌+◌, String, ◌≡◌, refl, true, List, [], ◌∷◌, ◌++◌, Option, none, some, arith, num_eq,
  if◌then◌else◌, Option-cases, inl, inr, ap,
}
use clustervision.Client.{
  Request, AxiosError, Waiter, Client, Action, clear_cache, go_to_login, replay, reject_raw,
  reject_formatted, on_failure, answer, drain_queue, bearer, on_refreshed, on_refresh_failed, Event,
  fails, refreshed, refresh_failed, store_written, step, run,
}
use clustervision.Client.Invariant.{Inv, step-Inv}

abbrev same : ℕ → Request → ℕ
same n r = if num_eq r.id n then 1 else 0

-- How often a request is replayed or rejected.
abbrev settles : ℕ → Action → ℕ
settles n (replay r) = same n r
settles n (reject_raw r e) = same n r
settles n (reject_formatted r e) = same n r
settles n _ = 0

abbrev pub count_settled : ℕ → List Action → ℕ
count_settled n [] = 0
count_settled n (a ∷ xs) = settles n a + count_settled n xs

abbrev pub count_queued : ℕ → List Waiter → ℕ
count_queued n [] = 0
count_queued n (w ∷ ws) = same n w.request + count_queued n ws

abbrev pub count_refresher : ℕ → Option Waiter → ℕ
count_refresher n none = 0
count_refresher n (some w) = same n w.request

abbrev pub count_waiting : ℕ → Client → ℕ
count_waiting n c = count_queued n c.pending_queue + count_refresher n c.refresher

abbrev fails_as : ℕ → Event → ℕ
fails_as n (fails r e) = same n r
fails_as n _ = 0

abbrev pub count_failed : ℕ → List Event → ℕ
count_failed n [] = 0
count_failed n (ev ∷ evs) = fails_as n ev + count_failed n evs

pub count_settled-append :
    (n : ℕ) (xs bs : List Action)
    → count_settled n (xs ++ bs) ≡ count_settled n xs + count_settled n bs
count_settled-append n [] bs = omega arith
count_settled-append n (a ∷ xs) bs = omega (arith, count_settled-append n xs bs)

count_queued-append :
    (n : ℕ) (vs ws : List Waiter)
    → count_queued n (vs ++ ws) ≡ count_queued n vs + count_queued n ws
count_queued-append n [] ws = omega arith
count_queued-append n (v ∷ vs) ws = omega (arith, count_queued-append n vs ws)

settles-answer :
    (n : ℕ) (token : Option String) (w : Waiter) → settles n (answer token w) ≡ same n w.request
unfolding answer
settles-answer n none w = refl
settles-answer n (some token) w = ground arith

-- Draining answers every request of the queue.
count_settled-drain_queue :
    (n : ℕ) (token : Option String) (ws : List Waiter)
    → count_settled n (drain_queue token ws) ≡ count_queued n ws
unfolding drain_queue
count_settled-drain_queue n token [] = refl
count_settled-drain_queue n token (w ∷ ws) =
    omega (arith, settles-answer n token w, count_settled-drain_queue n token ws)

on_failure-settled :
    (n : ℕ) (r : Request) (e : AxiosError) (c : Client)
    → Inv c
    → same n r + count_waiting n c
      ≡ count_settled n (on_failure r e c).1 + count_waiting n (on_failure r e c).0
unfolding on_failure
on_failure-settled n r e c v = ground (
  arith,
  count_queued-append n c.pending_queue
      (record { request = record r { retry = true }; error = e } ∷ []),
)

refreshed-settled :
    (n : ℕ) (token : String) (c : Client)
    → count_waiting n c
      ≡ count_settled n (on_refreshed token c).1 + count_waiting n (on_refreshed token c).0
unfolding on_refreshed
refreshed-settled n token c = elim (Option-cases c.refresher) [
  | inl e ↦ rw (e, on_refreshed) (omega (arith, ap (count_refresher n) e))
  | inr (w, e) ↦
      rw (e, on_refreshed)
        (omega (
          arith,
          count_settled-append n (drain_queue (some token) c.pending_queue)
              (replay (record w.request { authorization = bearer token }) ∷ []),
          count_settled-drain_queue n (some token) c.pending_queue,
        ))
]

refresh_failed-settled :
    (n : ℕ) (c : Client)
    → count_waiting n c
      ≡ count_settled n (on_refresh_failed c).1 + count_waiting n (on_refresh_failed c).0
unfolding on_refresh_failed
refresh_failed-settled n c = elim (Option-cases c.refresher) [
  | inl e ↦ rw (e, on_refresh_failed) (omega (arith, ap (count_refresher n) e))
  | inr (w, e) ↦
      rw (e, on_refresh_failed)
        (omega (
          arith,
          count_settled-append n (drain_queue none c.pending_queue)
              (clear_cache ∷ go_to_login ∷ reject_raw w.request w.error ∷ []),
          count_settled-drain_queue n none c.pending_queue,
        ))
]

pub step-settled :
    (n : ℕ) (ev : Event) (c : Client)
    → Inv c
    → fails_as n ev + count_waiting n c
      ≡ count_settled n (step ev c).1 + count_waiting n (step ev c).0
unfolding step
step-settled n (fails r e) c v = on_failure-settled n r e c v
step-settled n (refreshed token) c v = omega (arith, refreshed-settled n token c)
step-settled n refresh_failed c v = omega (arith, refresh_failed-settled n c)
step-settled n (store_written w) c v = omega arith

-- After every history of failures, refreshes and store writes, from a state in which a request
-- waits only during a refresh and with the retry flag: the failures of a request, with those that
-- waited before, are as many as its replays and rejections, with those that still wait. No failed
-- request is dropped and none is settled twice.
pub run-settled :
    (n : ℕ) (evs : List Event) (c : Client)
    → Inv c
    → count_failed n evs + count_waiting n c
      ≡ count_settled n (run evs c).1 + count_waiting n (run evs c).0
unfolding run
run-settled n [] c v = omega arith
run-settled n (ev ∷ evs) c v = omega (
  arith,
  step-settled n ev c v,
  run-settled n evs (step ev c).0 (step-Inv ev c v),
  count_settled-append n (step ev c).1 (run evs (step ev c).0).1,
)
