-- ===== src/Client/Liveness.antt =====
-- Every failed request is settled at last, if the refresh ends.
use clustervision.Base.{
  ℕ, ◌+◌, ◌≤◌, String, ◌≡◌, refl, Bool, true, false, List, [], ◌∷◌, ◌++◌, Option, none, some, any,
  arith, Bool-cases, inl, inr, ap,
}
use clustervision.Auth.{AuthStore}
use clustervision.Client.{
  Waiter, Client, idle, on_refreshed, on_refresh_failed, Event, refreshed, refresh_failed, step,
  run,
}
use clustervision.Client.Invariant.{Refreshing, Inv, idle-Inv, step-Inv, run-Inv}
use clustervision.Client.Settling.{
  count_queued, count_refresher, count_settled, count_waiting, count_failed, run-settled,
  step-settled, count_settled-append,
}

-- The refresh ends, in whatever way.
abbrev is_end : Event → Bool
is_end (refreshed token) = true
is_end refresh_failed = true
is_end _ = false

-- Without a refresh nothing waits, and when it ends nothing waits any more.
refreshed-none_waits :
    (n : ℕ) (token : String) (c : Client) (o : Option Waiter)
    → c.refresher ≡ o
    → Refreshing o c
    → count_waiting n (on_refreshed token c).0 ≡ 0
unfolding on_refreshed
refreshed-none_waits n token c none k (calm, empty) =
    rw (k, on_refreshed) (omega (arith, ap (count_queued n) empty, ap (count_refresher n) k))
refreshed-none_waits n token c (some w) k busy = rw (k, on_refreshed) (omega arith)

refresh_failed-none_waits :
    (n : ℕ) (c : Client) (o : Option Waiter)
    → c.refresher ≡ o
    → Refreshing o c
    → count_waiting n (on_refresh_failed c).0 ≡ 0
unfolding on_refresh_failed
refresh_failed-none_waits n c none k (calm, empty) =
    rw (k, on_refresh_failed) (omega (arith, ap (count_queued n) empty, ap (count_refresher n) k))
refresh_failed-none_waits n c (some w) k busy = rw (k, on_refresh_failed) (omega arith)

none_waits :
    (n : ℕ) (ev : Event) (c : Client) → Inv c → is_end ev ≡ true → count_waiting n (step ev c).0 ≡ 0
unfolding step
none_waits n (refreshed token) c v e = refreshed-none_waits n token c c.refresher refl v.refreshing
none_waits n refresh_failed c v e = refresh_failed-none_waits n c c.refresher refl v.refreshing
none_waits n _ c v e = cc

waiting-le-settled :
    (n : ℕ) (evs : List Event) (c : Client)
    → Inv c
    → any is_end evs ≡ true
    → count_waiting n c ≤ count_settled n (run evs c).1
unfolding run
waiting-le-settled n [] c v e = cc
waiting-le-settled n (ev ∷ evs) c v e =
    let c' = (step ev c).0 in
    let more = count_settled-append n (step ev c).1 (run evs c').1 in
    elim (Bool-cases (is_end ev)) [
      | inl k ↦ omega (arith, step-settled n ev c v, none_waits n ev c v k, more)
      | inr k ↦ omega (
        arith,
        step-settled n ev c v,
        waiting-le-settled n evs c' (step-Inv ev c v) (rw k at e),
        more,
      )
    ]

run-append :
    (n : ℕ) (evs more : List Event) (c : Client)
    → count_settled n (run (evs ++ more) c).1
      ≡ count_settled n (run evs c).1 + count_settled n (run more (run evs c).0).1
unfolding run
run-append n [] more c = omega arith
run-append n (ev ∷ evs) more c =
    let c' = (step ev c).0 in
    omega (
      arith,
      run-append n evs more c',
      count_settled-append n (step ev c).1 (run (evs ++ more) c').1,
      count_settled-append n (step ev c).1 (run evs c').1,
    )

-- From the start, after every history that is followed by events among which a refresh ends: each
-- failure of a request in the history has been answered by a replay or a rejection of it.
pub run-settles :
    (n : ℕ) (s : AuthStore) (evs more : List Event)
    → any is_end more ≡ true
    → count_failed n evs ≤ count_settled n (run (evs ++ more) (idle s)).1
unfolding idle
run-settles n s evs more e =
    let c = (run evs (idle s)).0 in
    omega (
      arith,
      run-settled n evs (idle s) (idle-Inv s),
      waiting-le-settled n more c (run-Inv evs (idle s) (idle-Inv s)) e,
      run-append n evs more (idle s),
    )
