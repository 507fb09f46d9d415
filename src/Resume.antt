-- ===== src/Resume.antt =====
-- What a resumed run takes from its journal: loadJournal, signatureFallbackScope,
-- buildResumeSignatureIndex, markResumeSignatureClaimed and claimResumeSignatureFallback of
-- workflow-kernel/event-journal.js, and classifyResumeCacheHit of child-agent-runner.js.
pub mod Scope
pub mod Index
pub mod Claims
use opencode_workflows.Prelude.{
  String, Bool, true, false, not, ◌&&◌, ◌||◌, Option, none, some, List, [], ◌∷◌, ◌++◌, str_eq, any,
  find_first, if◌then◌else◌,
}
use opencode_workflows.Prelude.Dict
use opencode_workflows.Prelude.Dict.{Dict}
use opencode_workflows.Resume.Scope.{signature_fallback_scope}

-- A journal entry, as far as a resume reads it; a signature that is missing is empty.
pub record Entry : Type 0 where
  pub call_id : String
  pub is_success : Bool
  pub signature_hash : String
  pub salvaged_from_transcript : Bool

abbrev pub is_empty : String → Bool
is_empty s = str_eq s ""

-- `loadJournal`: a line that does not parse is `none`; the last entry of a call stays.
unfoldable pub load_journal : Dict Entry → List (Option Entry) → Dict Entry
load_journal entries [] = entries
load_journal entries (none ∷ lines) = load_journal entries lines
load_journal entries (some entry ∷ lines) =
    if is_empty entry.call_id
    then load_journal entries lines
    else load_journal (Dict.put entries entry.call_id entry) lines

abbrev pub Index : Type 0
Index = Dict (Dict (List Entry))

abbrev pub or_nil {ℓ} : {A : Type ℓ} → Option (List A) → List A
or_nil none = []
or_nil (some xs) = xs

-- The candidates of a signature in a scope.
unfoldable pub candidates : Index → String → String → List Entry
candidates index signature scope = or_nil (Dict.get (or_nil (Dict.get index signature)) scope)

-- The entries that the index takes in.
abbrev pub is_indexed : Entry → Bool
is_indexed entry =
    entry.is_success && (not (is_empty entry.signature_hash) && not (is_empty entry.call_id))

unfoldable pub index_entry : Index → Entry → Index
unfolding candidates
index_entry index entry =
    if is_indexed entry
    then (let scope = signature_fallback_scope entry.call_id in
        let by_scope = or_nil (Dict.get index entry.signature_hash) in
        Dict.put index entry.signature_hash
          (Dict.put by_scope scope (or_nil (Dict.get by_scope scope) ++ entry ∷ [])))
    else index

unfoldable pub index_entries : Index → List Entry → Index
unfolding index_entry
index_entries index [] = index
index_entries index (entry ∷ entries) = index_entries (index_entry index entry) entries

abbrev pub values : Dict Entry → List Entry
values [] = []
values ((key, entry) ∷ d) = entry ∷ values d

-- `buildResumeSignatureIndex`.
unfoldable pub build_resume_signature_index : Dict Entry → Index
unfolding index_entries
build_resume_signature_index journal = index_entries [] (values journal)

-- The fields of the run: its journal, the index, and the set of claims.
pub record Run : Type 0 where
  pub journal : Dict Entry
  pub index : Index
  pub claims : List String

unfoldable pub mark_resume_signature_claimed : Run → String → Run
mark_resume_signature_claimed run call_id =
    if is_empty call_id || any (str_eq call_id) run.claims
    then run
    else record run { claims = call_id ∷ run.claims }

-- What lets the loop of claimResumeSignatureFallback take a candidate.
abbrev pub is_free : Run → String → Entry → Bool
is_free run call_id entry =
    not (is_empty entry.call_id)
    && (not (str_eq entry.call_id call_id) && not (any (str_eq entry.call_id) run.claims))

abbrev pub claimed : Run → Option Entry → Option Entry × Run
claimed run none = (none, run)
claimed run (some entry) = (some entry, record run { claims = entry.call_id ∷ run.claims })

unfoldable pub claim_resume_signature_fallback : Run → String → String → Option Entry × Run
claim_resume_signature_fallback run call_id signature =
    if is_empty signature
    then (none, run)
    else claimed run (
        find_first (is_free run call_id)
          (candidates run.index signature (signature_fallback_scope call_id)))

-- `classifyResumeCacheHit`.
pub data CacheHit : Type 0 where
  hit salvaged_hit : CacheHit

unfoldable pub classify_resume_cache_hit : Option Entry → String → Option CacheHit
classify_resume_cache_hit none signature = none
classify_resume_cache_hit (some cached) signature =
    if not (str_eq cached.signature_hash signature) || not cached.is_success
    then none
    else some (if cached.salvaged_from_transcript then salvaged_hit else hit)

-- What runChildAgent does first with a lane of a resumed run: its own entry, or one claimed by its
-- signature; the answer says which entry it reuses.
pub data Reuse : Type 0 where
  own fallback : Entry → Reuse
  fresh : Reuse

abbrev pub as_fallback : Option Entry → Reuse
as_fallback none = fresh
as_fallback (some entry) = fallback entry

abbrev pub reuse_cached : Run → String → String → Option Entry → Option CacheHit → Reuse × Run
reuse_cached run call_id signature (some entry) (some h) =
    (own entry, mark_resume_signature_claimed run call_id)
reuse_cached run call_id signature _ _ =
    let (entry, run') = claim_resume_signature_fallback run call_id signature in
    (as_fallback entry, run')

unfoldable pub reuse_lane : Run → String → String → Reuse × Run
unfolding claim_resume_signature_fallback mark_resume_signature_claimed classify_resume_cache_hit
reuse_lane run call_id signature =
    let cached = Dict.get run.journal call_id in
    reuse_cached run call_id signature cached (classify_resume_cache_hit cached signature)
