-- ===== src/Dashboard.antt =====
-- frontend/src/pages/DashboardPage.tsx: the requests that it lists and their approval, the numbers,
-- and the links that it shows. Who may decide is as on the page of the requests; texts and styles
-- are left out.
pub mod Deciding
mod Tests
use clustervision.Base.{
  ℕ, String, ◌≡◌, Bool, true, false, not, ◌&&◌, List, [], ◌∷◌, ◌++◌, Option, none, some, ◌==◌, ◌<>◌,
  ◌||◌, is_some, length, filter, take, get_elem?, if◌then◌else◌,
}
use clustervision.Types.{AccessRequestStatus, pending, AccessRequest}
use clustervision.Auth.{AuthStore, can_write}
use clustervision.Admin.{LinkedUser}
use clustervision.Requests.Review.{is_privileged, is_own_request}

-- `approving` is `isPending` of the mutation.
pub record Page : Type 0 where
  pub approve_target : Option AccessRequest
  pub approving : Bool

abbrev pub opened : Page
opened = record { approve_target = none; approving = false }

abbrev pub is_pending : AccessRequestStatus → Bool
is_pending pending = true
is_pending _ = false

unfoldable pub all_pending : List AccessRequest → List AccessRequest
all_pending rs = filter (λ r. is_pending r.status) rs

unfoldable pub my_pending : AuthStore → List AccessRequest → List AccessRequest
my_pending s rs = filter (λ r. is_own_request s r) (all_pending rs)

-- The requests that count for the user.
unfoldable pub counted : AuthStore → List AccessRequest → List AccessRequest
counted s rs = if is_privileged s then all_pending rs else my_pending s rs

-- The rows of the list.
unfoldable pub rows : AuthStore → List AccessRequest → List AccessRequest
rows s rs = take 6 (counted s rs)

-- The number of requests on the tile; none while they are loading.
unfoldable tile : AuthStore → Option (List AccessRequest) → Option ℕ
tile s none = none
tile s (some rs) = some (length (counted s rs))

-- The buttons with links; `encode` is `encodeURIComponent`.
unfoldable quick_links : (String → String) → AuthStore → String → Option LinkedUser → List String
quick_links encode s c link =
    (if can_write s c then "/users" ∷ [] else [])
    ++ "/access-requests" ∷ []
    ++ (if can_write s c then my_kubeconfig link else [])
  where
    my_kubeconfig : Option LinkedUser → List String
    my_kubeconfig none = []
    my_kubeconfig (some l) =
        ("/kubeconfig?user=" <> encode l.name <> "&namespace=" <> encode l.namespace) ∷ []

pub data Variant : Type 0 where
  info danger default : Variant

-- The colour of an entry of the audit log.
unfoldable method_variant : String → Variant
method_variant m =
    if m == "DELETE"
    then danger
    else if m == "POST" || (m == "PUT" || m == "PATCH")
    then info
    else default

pub data Effect : Type 0 where
  ask_approve ask_deny : String → Effect

-- A button is named by its row.
pub data Event : Type 0 where
  click_approve click_deny : ℕ → Event
  cancelled confirmed : Event

abbrev pub foreign : AuthStore → Option AccessRequest → Bool
foreign s none = false
foreign s (some r) = not (is_own_request s r)

-- The controls, with the requests that are loaded at that moment.
unfoldable pub controls : AuthStore → List AccessRequest → Page → Event → Bool
controls s rs p (click_approve i) = is_privileged s && foreign s (get_elem? (rows s rs) i)
controls s rs p (click_deny i) = is_privileged s && is_some (get_elem? (rows s rs) i)
controls s rs p cancelled = is_some p.approve_target
controls s rs p confirmed = is_some p.approve_target && not p.approving

abbrev pub deny_row : Option AccessRequest → List Effect
deny_row none = []
deny_row (some r) = ask_deny r.id ∷ []

abbrev pub approve_shown : Option AccessRequest → Page → Page × List Effect
approve_shown none p = (p, [])
approve_shown (some r) p = (record p { approving = true }, ask_approve r.id ∷ [])

unfoldable pub handle : AuthStore → List AccessRequest → Event → Page → Page × List Effect
handle s rs (click_approve i) p = (record p { approve_target = get_elem? (rows s rs) i }, [])
handle s rs (click_deny i) p = (p, deny_row (get_elem? (rows s rs) i))
handle s rs cancelled p = (record p { approve_target = none }, [])
handle s rs confirmed p = approve_shown p.approve_target p

-- The answer of the approval.
unfoldable pub answered : Bool → Page → Page
answered true p = record p { approving = false; approve_target = none }
answered false p = record p { approving = false }

-- One use of the page in a session.
pub data Reach (s : AuthStore) : Page → Type 0 where
  here : Reach s opened
  used :
      {p : Page}
      → Reach s p
      → (rs : List AccessRequest) (e : Event) → controls s rs p e ≡ true
      → Reach s (handle s rs e p).0
  settled : {p : Page} → Reach s p → (ok : Bool) → p.approving ≡ true → Reach s (answered ok p)
