-- ===== src/Audit.antt =====
-- frontend/src/pages/AuditLogPage.tsx: the filters of the audit log, their delay, and the pages. What
-- the backend answers is a parameter where it matters; texts and styles are left out.
pub mod Filtering
mod Tests
use clustervision.Base.{
  ℕ, ◌+◌, ◌-◌, String, ◌≡◌, Bool, true, false, not, ◌&&◌, ◌||◌, List, [], ◌∷◌, Option, none, some,
  ◌==◌, is_some, leb, ltb, num_eq, if◌then◌else◌,
}
use clustervision.Base.Json.{Value, str}
use clustervision.Types.{AuditLogQuery, AuditLogExportQuery}
use clustervision.Hooks.{Key}

-- types/audit.ts
pub record AuditLogEntry : Type 0 where
  pub id : String
  pub timestamp : String
  pub actor : Option String
  pub actor_role : Option String
  pub method : String
  pub path : String
  pub status_code : ℕ
  pub payload : Option Value

-- `timer` tells that the timeout of the effect is pending.
pub record Page : Type 0 where
  pub actor : String
  pub path_contains : String
  pub debounced_actor : String
  pub debounced_path_contains : String
  pub from_date : String
  pub to_date : String
  pub offset : ℕ
  pub payload_target : Option AuditLogEntry
  pub timer : Bool
  pub exporting : Bool

-- The effect runs after the first render.
abbrev pub opened : Page
opened = record {
  actor = "";
  path_contains = "";
  debounced_actor = "";
  debounced_path_contains = "";
  from_date = "";
  to_date = "";
  offset = 0;
  payload_target = none;
  timer = true;
  exporting = false;
}

abbrev page_size : ℕ
page_size = 25

pub data Effect : Type 0 where
  ask_export : AuditLogExportQuery → Effect
  invalidate : Key → Effect

-- `v || undefined`
abbrev pub or_undefined : String → Option String
or_undefined v = if v == "" then none else some v

-- The query of `useAuditLog`.
unfoldable pub audit_query : Page → AuditLogQuery
audit_query s = record {
  limit = page_size;
  offset = s.offset;
  actor = or_undefined s.debounced_actor;
  path_contains = or_undefined s.debounced_path_contains;
}

unfoldable export_query : Page → AuditLogExportQuery
export_query s = record {
  from = or_undefined s.from_date;
  to = or_undefined s.to_date;
  actor = or_undefined s.actor;
  path_contains = or_undefined s.path_contains;
}

-- The timeout: it fires when 300 ms have passed without a change of the two texts.
unfoldable pub timer_fired : Page → Page
timer_fired s = record s {
  debounced_actor = s.actor;
  debounced_path_contains = s.path_contains;
  offset = 0;
  timer = false;
}

pub data Event : Type 0 where
  set_actor set_path_contains set_from_date set_to_date : String → Event
  export_csv refresh previous next close_payload : Event
  view_payload : AuditLogEntry → Event

-- The effect runs again, and starts the timer, when a text has changed.
unfoldable pub handle : Event → Page → Page × List Effect
unfolding export_query
handle (set_actor v) s = (record s { actor = v; timer = s.timer || not (v == s.actor) }, [])
handle (set_path_contains v) s =
    (record s { path_contains = v; timer = s.timer || not (v == s.path_contains) }, [])
handle (set_from_date v) s = (record s { from_date = v }, [])
handle (set_to_date v) s = (record s { to_date = v }, [])
handle export_csv s = (record s { exporting = true }, ask_export (export_query s) ∷ [])
handle refresh s = (s, invalidate (str "audit-log" ∷ []) ∷ [])
handle previous s = (record s { offset = s.offset - page_size }, [])
handle next s = (record s { offset = s.offset + page_size }, [])
handle (view_payload e) s = (record s { payload_target = some e }, [])
handle close_payload s = (record s { payload_target = none }, [])

-- The controls, where the answer that is shown tells of `total` entries.
unfoldable pub controls : ℕ → Page → Event → Bool
controls total s export_csv = not s.exporting
controls total s previous = ltb 0 total && not (num_eq s.offset 0)
controls total s next = ltb 0 total && not (leb total (s.offset + page_size))
controls total s (view_payload e) = is_some e.payload
controls total s close_payload = is_some s.payload_target
controls total s _ = true

pub data Variant : Type 0 where
  success warning danger : Variant

-- The colour of the status of an entry.
unfoldable status_variant : ℕ → Variant
status_variant status =
    if ltb status 300 then success else if ltb status 500 then warning else danger

-- The two numbers of the label, which is shown where there are entries.
unfoldable range_label : Page → ℕ → Option (ℕ × ℕ)
range_label s total =
    if ltb 0 total
    then some
        (s.offset + 1, (if leb (s.offset + page_size) total then s.offset + page_size else total))
    else none

pub data Step (s : Page) : Page → Type 0 where
  control : (total : ℕ) (e : Event) → controls total s e ≡ true → Step s (handle e s).0
  fired : s.timer ≡ true → Step s (timer_fired s)
  exported : s.exporting ≡ true → Step s (record s { exporting = false })

pub data Reach : Page → Type 0 where
  here : Reach opened
  then_ : {s t : Page} → Reach s → Step s t → Reach t
