-- ===== src/Audit/Tests.antt =====
-- The theorem of the audit log at a concrete page.
use clustervision.Base.{ℕ, ◌*◌, ◌≡◌, ◌⊎◌, refl, false}
use clustervision.Audit.{
  Page, opened, or_undefined, audit_query, set_actor, next, timer_fired, handle, controls, Step,
  control, fired, Reach, here, then_,
}
use clustervision.Audit.Filtering.{SameFilter, audit_query-settled}

abbrev typed : Page
typed = record opened { actor = "ann" }

abbrev settled : Page
settled = record typed { debounced_actor = "ann"; timer = false }

abbrev reach_settled : Reach settled
unfolding controls handle timer_fired
reach_settled = then_ (then_ here (control 60 (set_actor "ann") refl)) (fired refl)

abbrev second : Step settled (record settled { offset = 25 })
unfolding controls handle
second = control 60 next refl

audit_query-settled_example :
    (false ≡ false
      → ((audit_query settled).actor ≡ or_undefined "ann")
        × ((audit_query settled).path_contains ≡ or_undefined ""))
    × ((k : ℕ) × ((audit_query settled).offset ≡ (audit_query settled).limit * k))
    × (SameFilter (audit_query settled) (audit_query (record settled { offset = 25 }))
        ⊎ ((audit_query (record settled { offset = 25 })).offset ≡ 0))
audit_query-settled_example = audit_query-settled reach_settled second
