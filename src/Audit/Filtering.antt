-- ===== src/Audit/Filtering.antt =====
-- Which entries of the audit log a page asks for.
use clustervision.Base.{ℕ, ◌+◌, ◌-◌, ◌*◌, ◌≡◌, refl, ◌⊎◌, inl, inr, false, eq_iff, arith}
use clustervision.Types.{AuditLogQuery}
use clustervision.Audit.{
  Page, or_undefined, audit_query, timer_fired, Event, set_actor, set_path_contains, previous, next,
  handle, Step, control, fired, exported, Reach, here, then_,
}

-- The filters are those that stand in the fields, and the offset is that of a page.
record Inv (s : Page) : Type 0 where
  filters :
      s.timer ≡ false
      → (s.debounced_actor ≡ s.actor) × (s.debounced_path_contains ≡ s.path_contains)
  whole_pages : (k : ℕ) × (s.offset ≡ 25 * k)

handle-Inv : (e : Event) (s : Page) → Inv s → Inv (handle e s).0
unfolding handle
handle-Inv (set_actor v) s inv = record {
  filters = λ off. ground (arith, inv.filters, eq_iff v s.actor);
  whole_pages = inv.whole_pages;
}
handle-Inv (set_path_contains v) s inv = record {
  filters = λ off. ground (arith, inv.filters, eq_iff v s.path_contains);
  whole_pages = inv.whole_pages;
}
handle-Inv previous s inv =
    let (k, e) = inv.whole_pages in
    record { filters = inv.filters; whole_pages = (k - 1, omega (arith, e)) }
handle-Inv next s inv =
    let (k, e) = inv.whole_pages in
    record { filters = inv.filters; whole_pages = (k + 1, omega (arith, e)) }
handle-Inv _ s inv = record { filters = inv.filters; whole_pages = inv.whole_pages }

Step-Inv : {s t : Page} → Step s t → Inv s → Inv t
unfolding timer_fired
Step-Inv {s} (control total e on) inv = handle-Inv e s inv
Step-Inv (fired w) inv = record { filters = λ off. (refl, refl); whole_pages = (0, refl) }
Step-Inv (exported w) inv = record { filters = inv.filters; whole_pages = inv.whole_pages }

Reach-Inv : {s : Page} → Reach s → Inv s
Reach-Inv here = record { filters = λ off. cc; whole_pages = (0, refl) }
Reach-Inv (then_ r st) = Step-Inv st (Reach-Inv r)

-- The two queries filter alike.
abbrev pub SameFilter : AuditLogQuery → AuditLogQuery → Type 0
SameFilter p q = (p.actor ≡ q.actor) × (p.path_contains ≡ q.path_contains)

handle-SameFilter : (e : Event) (s : Page) → SameFilter (audit_query s) (audit_query (handle e s).0)
unfolding handle audit_query
handle-SameFilter (set_actor v) s = (refl, refl)
handle-SameFilter (set_path_contains v) s = (refl, refl)
handle-SameFilter previous s = (refl, refl)
handle-SameFilter next s = (refl, refl)
handle-SameFilter _ s = (refl, refl)

Step-SameFilter :
    {s t : Page}
    → Step s t
    → SameFilter (audit_query s) (audit_query t) ⊎ ((audit_query t).offset ≡ 0)
unfolding timer_fired audit_query
Step-SameFilter {s} (control total e on) = inl (handle-SameFilter e s)
Step-SameFilter (fired w) = inr refl
Step-SameFilter (exported w) = inl (refl, refl)

-- However the page is used from its start: once the delay is over, the query filters by the texts
-- in the fields; its offset is always that of a page of 25 entries; and a step that changes the
-- filter goes back to the first entry.
pub audit_query-settled :
    {s t : Page}
    → Reach s
    → Step s t
    → (s.timer ≡ false
        → ((audit_query s).actor ≡ or_undefined s.actor)
          × ((audit_query s).path_contains ≡ or_undefined s.path_contains))
      × ((k : ℕ) × ((audit_query s).offset ≡ (audit_query s).limit * k))
      × (SameFilter (audit_query s) (audit_query t) ⊎ ((audit_query t).offset ≡ 0))
unfolding audit_query
audit_query-settled r st =
    let inv = Reach-Inv r in
    (
      (λ off. let (a, p) = inv.filters off in (rw a refl, rw p refl)),
      inv.whole_pages,
      Step-SameFilter st,
    )
