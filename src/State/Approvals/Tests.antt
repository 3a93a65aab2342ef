-- ===== src/State/Approvals/Tests.antt =====
-- A decision on a saved approval, and the theorems of this folder at concrete inputs.
use ouvrier.Base.{
  ◌≡◌, refl, some, List, [], ◌∷◌, arith, eq_iff, eq_string, eq_nat, ok, err, lookup, insert,
  trim_space,
}
use ouvrier.Events.Redactor.{Redactor}
use ouvrier.State.Types.{
  live, pending, approved, denied, PendingApproval, MemoryStore, new_memory_store,
  approval_already_decided,
}
use ouvrier.State.Approvals.{decided, save_approval, resolve_approval, resolve_args}
use ouvrier.State.Approvals.Decisions.{Call, save, resolve, run, first_decision_stands}

abbrev plain : Redactor
plain = record { redact_text = λ s. s; redact_json_text = λ s. s }

abbrev request : PendingApproval
request = record {
  id = "ap1";
  exec_id = "run1";
  session_id = "";
  trace_id = "";
  tool_name = "pay";
  tool_call_id = "call1";
  tool_kind = "";
  effect = "";
  reason = "";
  args_hash = "";
  status = pending;
  created_at = 5;
  decided_at = 0;
  decided_by = "";
}

abbrev asked : MemoryStore
asked = (save_approval plain live request 5 new_memory_store).1

asked-row : lookup "ap1" asked.approvals ≡ some request
unfolding save_approval lookup insert trim_space
asked-row = refl

abbrev later : List Call
later = save plain live (record request { id = "ap2" }) 6 ∷ resolve live "ap1" denied "eve" 7 ∷ []

first_decision_stands_example :
    ((resolve_approval live "ap1" approved "ada" 6 asked).0 ≡ ok (decided approved "ada" 6 request))
    × (lookup "ap1" (run (resolve live "ap1" approved "ada" 6 ∷ later) asked).approvals
        ≡ some (decided approved "ada" 6 request))
    × (resolve_approval live "ap1" denied "eve" 9
          (run (resolve live "ap1" approved "ada" 6 ∷ later) asked)
        ≡ (err approval_already_decided, run (resolve live "ap1" approved "ada" 6 ∷ later) asked))
unfolding trim_space resolve_args
first_decision_stands_example =
    first_decision_stands live live "ap1" "ada" "eve" approved denied 6 9 request later asked
      asked-row refl refl refl ((ground (arith, eq_iff "ap2" "ap1")), (tt, tt))
