-- ===== src/Tests/Resume.antt =====
-- A journal with two finished lanes of one prompt in a parallel call, and a lane that failed.
use opencode_workflows.Prelude.{◌≡◌, refl, true, false, some, none, List, [], ◌∷◌, String, keep}
use opencode_workflows.Prelude.Dict
use opencode_workflows.Prelude.Dict.{Dict}
use opencode_workflows.Resume.{
  Entry, Run, load_journal, build_resume_signature_index, candidates, is_free, values,
  claim_resume_signature_fallback, own, fallback, reuse_lane,
}
use opencode_workflows.Resume.Scope.{signature_fallback_scope, is_item}
use opencode_workflows.Resume.Index.{matches, candidates-build_resume_signature_index}
use opencode_workflows.Resume.Claims.{
  reuse_lanes, IsClaimedOnce, reuse_lanes-IsClaimedOnce, claim_resume_signature_fallback-matches,
}

abbrev entry : String → Entry
entry call_id = record {
  call_id = call_id;
  is_success = true;
  signature_hash = "s1";
  salvaged_from_transcript = false;
}

abbrev journal : Dict Entry
journal =
    ("parallel:1/item:0/agent:1", entry "parallel:1/item:0/agent:1")
    ∷ ("parallel:1/item:1/agent:1", entry "parallel:1/item:1/agent:1")
    ∷ ("parallel:2/agent:1", record (entry "parallel:2/agent:1") { is_success = false })
    ∷ []

journal_loaded :
    load_journal [] (
      some (record (entry "parallel:1/item:0/agent:1") { is_success = false })
      ∷ some (entry "parallel:1/item:0/agent:1")
      ∷ some (entry "parallel:1/item:1/agent:1")
      ∷ none
      ∷ some (record (entry "parallel:2/agent:1") { is_success = false })
      ∷ [])
    ≡ journal
unfolding load_journal Dict.put
journal_loaded = refl

scopes :
    (signature_fallback_scope "parallel:1/item:12/agent:1" ≡ "parallel:1")
    × (signature_fallback_scope "phase/agent:3" ≡ "phase")
    × (signature_fallback_scope "item:1/agent:3" ≡ "item:1")
unfolding signature_fallback_scope is_item
scopes = (refl, refl, refl)

abbrev resumed : Run
resumed = record { journal = journal; index = build_resume_signature_index journal; claims = [] }

candidates-build_resume_signature_index_example :
    candidates (build_resume_signature_index journal) "s1" "parallel:1"
    ≡ keep (matches "s1" "parallel:1") (values journal)
candidates-build_resume_signature_index_example =
    candidates-build_resume_signature_index journal "s1" "parallel:1"

-- An item is put in front: its lane claims the first entry.
claimed_first :
    (claim_resume_signature_fallback resumed "parallel:1/item:7/agent:1" "s1").0
    ≡ some (entry "parallel:1/item:0/agent:1")
unfolding claim_resume_signature_fallback build_resume_signature_index candidates Dict.get Dict.put
    signature_fallback_scope is_item
claimed_first = refl

claim_resume_signature_fallback-matches_example :
    (is_free resumed "parallel:1/item:7/agent:1" (entry "parallel:1/item:0/agent:1") ≡ true)
    × (matches "s1"
          (signature_fallback_scope "parallel:1/item:7/agent:1")
          (entry "parallel:1/item:0/agent:1")
        ≡ true)
claim_resume_signature_fallback-matches_example =
    claim_resume_signature_fallback-matches resumed "parallel:1/item:7/agent:1" "s1"
      (entry "parallel:1/item:0/agent:1") refl claimed_first

abbrev lanes : List (String × String)
lanes =
    ("parallel:1/item:7/agent:1", "s1")
    ∷ ("parallel:1/item:8/agent:1", "s1")
    ∷ ("parallel:1/item:9/agent:1", "s1")
    ∷ []

reuse_lanes-IsClaimedOnce_example : IsClaimedOnce [] lanes (reuse_lanes resumed lanes)
reuse_lanes-IsClaimedOnce_example = reuse_lanes-IsClaimedOnce resumed lanes

-- An entry that was claimed by signature is still reused under its own call.
reused_twice :
    reuse_lanes resumed
      (("parallel:1/item:7/agent:1", "s1") ∷ ("parallel:1/item:0/agent:1", "s1") ∷ [])
    ≡ fallback (entry "parallel:1/item:0/agent:1") ∷ own (entry "parallel:1/item:0/agent:1") ∷ []
unfolding reuse_lanes reuse_lane build_resume_signature_index candidates Dict.get Dict.put
    signature_fallback_scope is_item
reused_twice = refl
