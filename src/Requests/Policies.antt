-- ===== src/Requests/Policies.antt =====
-- components/access/JitPolicyModal.tsx: the form of a policy, what it saves, and the removal of one.
-- `number` is the language's `Number` on what a numeric field holds, in minutes.
use clustervision.Base.{
  ℕ, String, ◌≡◌, refl, Bool, true, false, not, ◌&&◌, List, [], ◌∷◌, none, some, ◌==◌, trim,
  if◌then◌else◌,
}
use clustervision.Types.{RoleKind, cluster_role, role_kind_text}
use clustervision.Hooks.AccessRequests.{SetPolicyArgs, DeletePolicyArgs}

-- `eligible` is 'true' or 'false'; `saving` is `isPending` of the mutation.
pub record Dialog : Type 0 where
  pub role_kind : RoleKind
  pub role_name : String
  pub eligible : Bool
  pub max_ttl : String
  pub saving : Bool

abbrev opened : Dialog
opened = record {
  role_kind = cluster_role;
  role_name = "";
  eligible = true;
  max_ttl = "";
  saving = false;
}

pub data Effect : Type 0 where
  ask_set : SetPolicyArgs → Effect
  ask_delete : DeletePolicyArgs → Effect

unfoldable can_submit : Dialog → Bool
can_submit d = not (trim d.role_name == "")

unfoldable set_args : (String → ℕ) → Dialog → SetPolicyArgs
set_args number d = record {
  role_kind = role_kind_text d.role_kind;
  role_name = trim d.role_name;
  payload = record {
    eligible = d.eligible;
    max_ttl_minutes = if trim d.max_ttl == "" then none else some (number d.max_ttl);
  };
}

-- `handleSubmit`
unfoldable handle_submit : (String → ℕ) → Dialog → Dialog × List Effect
handle_submit number d =
    if can_submit d then (record d { saving = true }, ask_set (set_args number d) ∷ []) else (d, [])

pub data Event : Type 0 where
  set_role_kind : RoleKind → Event
  set_role_name set_max_ttl : String → Event
  set_eligible : Bool → Event
  click_save : Event
  click_remove : DeletePolicyArgs → Event

-- The controls; `listed` tells whether a policy is in the table.
unfoldable controls : (DeletePolicyArgs → Bool) → Dialog → Event → Bool
controls listed d (set_max_ttl v) = d.eligible
controls listed d click_save = can_submit d && not d.saving
controls listed d (click_remove a) = listed a
controls listed d _ = true

unfoldable handle : (String → ℕ) → Event → Dialog → Dialog × List Effect
handle number (set_role_kind k) d = (record d { role_kind = k }, [])
handle number (set_role_name v) d = (record d { role_name = v }, [])
handle number (set_max_ttl v) d = (record d { max_ttl = v }, [])
handle number (set_eligible b) d = (record d { eligible = b }, [])
handle number click_save d = handle_submit number d
handle number (click_remove a) d = (d, ask_delete a ∷ [])

-- The answer of the mutation that saves.
unfoldable saved : Bool → Dialog → Dialog
saved true d = record d { saving = false; role_name = ""; max_ttl = ""; eligible = true }
saved false d = record d { saving = false }

-- If the form can be saved and a limit stands in it, blocking the role and saving sends the limit too,
-- though its field is disabled then.
blocked-limit :
    (number : String → ℕ) (d : Dialog)
    → can_submit d ≡ true
    → (trim d.max_ttl == "") ≡ false
    → (handle_submit number (handle number (set_eligible false) d).0).1
      ≡ ask_set (record {
        role_kind = role_kind_text d.role_kind;
        role_name = trim d.role_name;
        payload = record { eligible = false; max_ttl_minutes = some (number d.max_ttl) };
      })
        ∷ []
unfolding handle_submit handle set_args can_submit
blocked-limit number d can typed = rw (can, typed) refl
