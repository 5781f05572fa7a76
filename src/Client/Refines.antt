-- ===== src/Client/Refines.antt =====
-- The interceptors keep the promise of the specification.
use clustervision.Base.{
  String, ◌≡◌, ◌≢◌, refl, sym, ap, ◌∙◌, true, false, not, ◌&&◌, List, [], ◌∷◌, map, Option, none,
  some, arith, eq_iff, Bool-cases, Option-cases, inl, inr,
}
use clustervision.Base.Bags.{Bag, of_list, swap, with_all, union, map_bag}
use clustervision.Auth.{set_access_token, clear_auth}
use clustervision.Client.{
  Request, AxiosError, Waiter, Client, Action, clear_cache, go_to_login, replay, reject_raw,
  on_failure, answer, drain_queue, bearer, on_refreshed, on_refresh_failed, Event, fails, refreshed,
  refresh_failed, store_written, step, run, unauthorized,
}
use clustervision.Client.Invariant.{Refreshing, Inv, step-Inv}
use clustervision.Client.Spec.{Spec, wait, spec_step, spec_run}
use mathlib.Core.Path.{ap₂}

abbrev waiting_of : Option Waiter → List Waiter → Option (Bag Waiter)
waiting_of none ws = none
waiting_of (some w) ws = some (of_list (w ∷ ws))

-- What the specification sees of the client.
abbrev pub view : Client → Spec
view c = record { waiting = waiting_of c.refresher c.pending_queue; session = c.auth }

-- `/auth/refresh` answers with a token that is not empty.
abbrev pub HasToken : Event → Type 0
HasToken (refreshed token) = token ≢ ""
HasToken _ = Unit

drain-map :
    (token : Option String) (ws : List Waiter) → drain_queue token ws ≡ map (answer token) ws
unfolding drain_queue
drain-map token [] = refl
drain-map token (w ∷ ws) = ap (answer token w ∷◌) (drain-map token ws)

replays :
    (token : String) (w : Waiter)
    → token ≢ ""
    → answer (some token) w ≡ replay (record w.request { authorization = bearer token })
unfolding answer
replays token w given = ground (arith, eq_iff token "")

abbrev marked : Request → AxiosError → Waiter
marked r e = record { request = record r { retry = true }; error = e }

module _ (r : Request) (e : AxiosError) (c : Client) where
  rejects_refines :
      (unauthorized e.status && not r.retry) ≡ false
      → let (c', xs) = on_failure r e c in (view c', of_list xs) ≡ spec_step (fails r e) (view c)
  unfolding on_failure spec_step
  rejects_refines h = rw h refl

  waits_refines :
      (unauthorized e.status && not r.retry) ≡ true
      → (o : Option Waiter) → c.refresher ≡ o
      → Refreshing o c
      → let (c', xs) = on_failure r e c in (view c', of_list xs) ≡ spec_step (fails r e) (view c)
  unfolding on_failure spec_step wait with_all
  waits_refines h none k (idle, empty) = simp (h, k, idle, empty)
  waits_refines h (some w) k (busy, m) =
      simp (h, k, busy, swap (w ∷ c.pending_queue) (marked r e ∷ []))

module _ (c : Client) where
  refreshed_refines :
      (token : String)
      → token ≢ ""
      → let (c', xs) = on_refreshed token c in
        (view c', of_list xs) ≡ spec_step (refreshed token) (view c)
  unfolding on_refreshed spec_step map_bag
  refreshed_refines token given = elim (Option-cases c.refresher) [
    | inl k ↦ rw (k, on_refreshed, spec_step) refl
    | inr (w, k) ↦
        rw (k, on_refreshed, spec_step)
          (ap (λ b. (record { waiting = none; session = set_access_token token c.auth }, b))
            (swap (drain_queue (some token) c.pending_queue)
                (replay (record w.request { authorization = bearer token }) ∷ [])
              ∙ ap₂ (λ a xs. of_list (a ∷ xs)) (sym (replays token w given))
                  (drain-map (some token) c.pending_queue)))
  ]

  refresh_failed_refines :
      let (c', xs) = on_refresh_failed c in
      (view c', of_list xs) ≡ spec_step refresh_failed (view c)
  unfolding on_refresh_failed spec_step map_bag with_all
  refresh_failed_refines = elim (Option-cases c.refresher) [
    | inl k ↦ rw (k, on_refresh_failed, spec_step) refl
    | inr (w, k) ↦
        rw (k, on_refresh_failed, spec_step)
          (ap (λ b. (record { waiting = none; session = clear_auth c.auth }, b))
            (swap (drain_queue none c.pending_queue)
                (clear_cache ∷ go_to_login ∷ reject_raw w.request w.error ∷ [])
              ∙ ap (λ xs. of_list (clear_cache ∷ go_to_login ∷ reject_raw w.request w.error ∷ xs))
                  (drain-map none c.pending_queue)))
  ]

step_refines :
    (ev : Event) (c : Client)
    → Inv c
    → HasToken ev
    → let (c', xs) = step ev c in (view c', of_list xs) ≡ spec_step ev (view c)
unfolding step spec_step
step_refines (fails r e) c v h = elim (Bool-cases (unauthorized e.status && not r.retry)) [
  | inl k ↦ waits_refines r e c k c.refresher refl v.refreshing
  | inr k ↦ rejects_refines r e c k
]
step_refines (refreshed token) c v h = refreshed_refines c token h
step_refines refresh_failed c v h = refresh_failed_refines c
step_refines (store_written w) c v h = refl

-- The requirement on every event of a history.
abbrev HaveTokens : List Event → Type 0
HaveTokens [] = Unit
HaveTokens (ev ∷ evs) = HasToken ev × HaveTokens evs

-- From every state in which a request waits only during a refresh, after every history whose
-- refreshes answer with a token that is not empty: the client has made, up to their order, the
-- actions of the specification, and stands as the specification does.
pub run_refines :
    (evs : List Event) (c : Client)
    → Inv c
    → HaveTokens evs
    → let (c', xs) = run evs c in (view c', of_list xs) ≡ spec_run evs (view c)
unfolding run spec_run union with_all
run_refines [] c v h = refl
run_refines (ev ∷ evs) c v (h, hs) =
    let made = of_list (step ev c).1 in
    let after : Spec × Bag Action → Spec × Bag Action = λ q. (q.0, union made q.1) in
    let from : Spec × Bag Action → Spec × Bag Action =
      λ p. ((spec_run evs p.0).0, union p.1 (spec_run evs p.0).1) in
    ap after (run_refines evs (step ev c).0 (step-Inv ev c v) hs) ∙ ap from (step_refines ev c v h)
