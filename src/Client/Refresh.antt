-- ===== src/Client/Refresh.antt =====
-- What a refresh leads to: one at a time, one replay for a request, a sign-out when it fails.
use clustervision.Base.{
  ℕ, ◌+◌, ◌≤◌, String, ◌≡◌, ◌≢◌, refl, true, List, [], ◌∷◌, ◌++◌, Option, none, some, eq_iff,
  if◌then◌else◌, All, All-append, arith, Option-cases, inl, inr,
}
use clustervision.Auth.{set_access_token, clear_auth}
use clustervision.Client.{
  Request, AxiosError, Waiter, Client, Action, post_refresh, clear_cache, go_to_login, replay,
  reject_raw, reject_formatted, format_api_error, bearer, idle, on_failure, answer, drain_queue,
  on_refreshed, on_refresh_failed, Event, fails, refreshed, refresh_failed, store_written, step,
  run,
}
use clustervision.Client.Invariant.{Inv, step-Inv, Marked, count_refreshes}

-- A replayed request carries the flag, and a second failure of it is rejected at once: it neither
-- waits nor asks for a refresh.
abbrev IsSpent : Action → Type 0
IsSpent (replay r) =
    (r.retry ≡ true)
    × ((e : AxiosError) (c : Client)
        → on_failure r e c ≡ (c, reject_formatted r (format_api_error e) ∷ []))
IsSpent _ = Unit

marked-IsSpent : (r : Request) → r.retry ≡ true → IsSpent (replay r)
unfolding on_failure
marked-IsSpent r h = (h, λ e c. ground arith)

answer-IsSpent : (token : Option String) (w : Waiter) → Marked w → IsSpent (answer token w)
unfolding answer
answer-IsSpent none w h = tt
answer-IsSpent (some token) w h =
    ground (arith, marked-IsSpent (record w.request { authorization = bearer token }) h)

drain_queue-IsSpent :
    (token : Option String) (ws : List Waiter) → All Marked ws → All IsSpent (drain_queue token ws)
unfolding drain_queue
drain_queue-IsSpent token [] h = tt
drain_queue-IsSpent token (w ∷ ws) (p, h) =
    (answer-IsSpent token w p, drain_queue-IsSpent token ws h)

step-IsSpent : (ev : Event) (c : Client) → Inv c → All IsSpent (step ev c).1
unfolding step on_failure on_refreshed on_refresh_failed
step-IsSpent (fails r e) c v = ground arith
step-IsSpent (refreshed token) c v = elim (Option-cases c.refresher) [
  | inl e ↦ rw (e, on_refreshed) tt
  | inr (w, e) ↦
      rw (e, on_refreshed)
        (All-append IsSpent (drain_queue (some token) c.pending_queue) _
          (drain_queue-IsSpent (some token) c.pending_queue v.queue)
          (marked-IsSpent (record w.request { authorization = bearer token }) (ground arith), tt))
]
step-IsSpent refresh_failed c v = elim (Option-cases c.refresher) [
  | inl e ↦ rw (e, on_refresh_failed) tt
  | inr (w, e) ↦
      rw (e, on_refresh_failed)
        (All-append IsSpent (drain_queue none c.pending_queue) _
          (drain_queue-IsSpent none c.pending_queue v.queue) (tt, (tt, (tt, tt))))
]
step-IsSpent (store_written w) c v = tt

-- In every history from a state in which a request waits only during a refresh and with the retry
-- flag, each request is replayed with the retry flag, and a replayed request that fails again is
-- rejected at once, without a wait or another refresh.
run-IsSpent : (evs : List Event) (c : Client) → Inv c → All IsSpent (run evs c).1
unfolding run
run-IsSpent [] c v = tt
run-IsSpent (ev ∷ evs) c v =
    All-append IsSpent (step ev c).1 _ (step-IsSpent ev c v)
      (run-IsSpent evs (step ev c).0 (step-Inv ev c v))

count_refreshes-append :
    (xs ys : List Action) → count_refreshes (xs ++ ys) ≡ count_refreshes xs + count_refreshes ys
count_refreshes-append [] ys = omega arith
count_refreshes-append (post_refresh ∷ xs) ys = omega (arith, count_refreshes-append xs ys)
count_refreshes-append (_ ∷ xs) ys = count_refreshes-append xs ys

abbrev in_flight : Client → ℕ
in_flight c = if c.is_refreshing then 1 else 0

-- Histories in which no refresh ends.
abbrev Unsettled : List Event → Type 0
Unsettled [] = Unit
Unsettled (fails r e ∷ evs) = Unsettled evs
Unsettled (store_written w ∷ evs) = Unsettled evs
Unsettled (_ ∷ evs) = ⊥

on_failure-in_flight :
    (r : Request) (e : AxiosError) (c : Client)
    → count_refreshes (on_failure r e c).1 + in_flight c ≡ in_flight (on_failure r e c).0
unfolding on_failure
on_failure-in_flight r e c = ground arith

-- While no refresh ends, whatever requests fail, a refresh is asked for at most once, and not at
-- all if one is in flight already.
run-single_flight :
    (evs : List Event) (c : Client)
    → Unsettled evs
    → (count_refreshes (run evs c).1 + in_flight c ≡ in_flight (run evs c).0)
      × (count_refreshes (run evs c).1 + in_flight c ≤ 1)
unfolding run step
run-single_flight [] c h = ground arith
run-single_flight (fails r e ∷ evs) c h =
    let (same, most) = run-single_flight evs (on_failure r e c).0 h in
    let first = on_failure-in_flight r e c in
    let total = count_refreshes-append (on_failure r e c).1 (run evs (on_failure r e c).0).1 in
    (omega (arith, same, first, total), omega (arith, same, most, first, total))
run-single_flight (store_written w ∷ evs) c h = run-single_flight evs _ h
run-single_flight (refreshed token ∷ evs) c h = elim h [ ]
run-single_flight (refresh_failed ∷ evs) c h = elim h [ ]

-- The requests that a list of actions replays, and those that it rejects.
abbrev pub replays : List Action → List Request
replays [] = []
replays (replay r ∷ xs) = r ∷ replays xs
replays (_ ∷ xs) = replays xs

abbrev rejections : List Action → List Request
rejections [] = []
rejections (reject_raw r e ∷ xs) = r ∷ rejections xs
rejections (reject_formatted r e ∷ xs) = r ∷ rejections xs
rejections (_ ∷ xs) = rejections xs

-- The requests that wait, in order, with the one that refreshes at the end.
abbrev pub with_token : String → List Waiter → Waiter → List Request
with_token token [] last = record last.request { authorization = bearer token } ∷ []
with_token token (w ∷ ws) last =
    record w.request { authorization = bearer token } ∷ with_token token ws last

abbrev pub waiting : List Waiter → Waiter → List Request
waiting [] last = last.request ∷ []
waiting (w ∷ ws) last = w.request ∷ waiting ws last

drained_with_token :
    (token : String) (ws : List Waiter) (last : Waiter)
    → token ≢ ""
    → let xs =
        drain_queue (some token) ws
        ++ replay (record last.request { authorization = bearer token }) ∷ [] in
      (replays xs ≡ with_token token ws last) × (rejections xs ≡ [])
unfolding drain_queue answer
drained_with_token token [] last ne = (refl, refl)
drained_with_token token (w ∷ ws) last ne =
    ground (arith, eq_iff token "", drained_with_token token ws last ne)

drained_without_token :
    (ws : List Waiter) (last : Waiter)
    → let xs =
        drain_queue none ws
        ++ clear_cache ∷ go_to_login ∷ reject_raw last.request last.error ∷ [] in
      (replays xs ≡ []) × (rejections xs ≡ waiting ws last)
unfolding drain_queue answer
drained_without_token [] last = (refl, refl)
drained_without_token (w ∷ ws) last = ground (arith, drained_without_token ws last)

-- A refresh that answers with a token: every request that waits is replayed with that token, in
-- the order of its failure and the one that refreshes last, none is rejected, the token is in the
-- store with the user as before, and the client is idle again.
on_refreshed-replays :
    (token : String) (c : Client) (w : Waiter)
    → c.refresher ≡ some w
    → token ≢ ""
    → (replays (on_refreshed token c).1 ≡ with_token token c.pending_queue w)
      × (rejections (on_refreshed token c).1 ≡ [])
      × ((on_refreshed token c).0 ≡ idle (record c.auth { access_token = some token }))
unfolding on_refreshed idle set_access_token
on_refreshed-replays token c w e ne =
    let (yes_all, no_rest) = drained_with_token token c.pending_queue w ne in
    rw (e, on_refreshed) (yes_all, no_rest, refl)

-- A refresh that fails: no request is replayed, every request that waits is rejected, in order,
-- user and token are gone, and the client is idle again; the cache is cleared and the login page
-- opened before the last rejection.
on_refresh_failed-rejects :
    (c : Client) (w : Waiter)
    → c.refresher ≡ some w
    → (replays (on_refresh_failed c).1 ≡ [])
      × (rejections (on_refresh_failed c).1 ≡ waiting c.pending_queue w)
      × ((on_refresh_failed c).0 ≡ idle (record { user = none; access_token = none }))
      × ((before : List Action) × ((on_refresh_failed c).1
            ≡ before ++ clear_cache ∷ go_to_login ∷ reject_raw w.request w.error ∷ []))
unfolding on_refresh_failed idle clear_auth
on_refresh_failed-rejects c w e =
    let (no_replay, all_rejected) = drained_without_token c.pending_queue w in
    rw (e, on_refresh_failed)
      (no_replay, all_rejected, refl, (drain_queue none c.pending_queue, refl))
