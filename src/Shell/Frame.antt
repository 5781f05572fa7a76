-- ===== src/Shell/Frame.antt =====
-- components/layout/Layout.tsx and the state of the connection in TopBar.tsx: what stands around a
-- page, by the answers of the health check and of the query on the cluster.
use clustervision.Base.{ℕ, String, Bool, true, false, Option, none, some}

pub data Frame : Type 0 where
  connecting backend_unreachable around_page : Frame

-- The error of the health check with the status of the answer, if there was one.
unfoldable frame : Bool → Option (Option ℕ) → Frame
frame true e = connecting
frame false none = around_page
frame false (some none) = backend_unreachable
frame false (some (some status)) = around_page

pub data Connection : Type 0 where
  loading unreachable : Connection
  connected : Option String → Connection

unfoldable connection : Bool → Bool → Option String → Connection
connection true is_error version = loading
connection false true version = unreachable
connection false false version = connected version
