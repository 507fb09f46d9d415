-- ===== src/Resume/Claims.antt =====
-- The claims of journal entries by signature, and the lanes that make them: event-journal.js and the first
-- branches of runChildAgent in workflow-kernel.
use opencode_workflows.Prelude.{
  ◌≡◌, refl, ◌⊎◌, String, Bool, true, false, Option, none, some, List, [], ◌∷◌, keep, any,
  find_first, str_eq, eq_iff, Bool-cases, Option-cases, inl, inr, arith,
}
use opencode_workflows.Prelude.Dict
use opencode_workflows.Resume.{
  Entry, Run, candidates, is_free, claim_resume_signature_fallback, mark_resume_signature_claimed,
  Reuse, own, fallback, fresh, reuse_lane, classify_resume_cache_hit, build_resume_signature_index,
  values, CacheHit, reuse_cached, as_fallback,
}
use opencode_workflows.Resume.Scope.{signature_fallback_scope}
use opencode_workflows.Resume.Index.{matches, candidates-build_resume_signature_index}

find_first-satisfies :
    (p : Entry → Bool) (xs : List Entry) (e : Entry) → find_first p xs ≡ some e → p e ≡ true
find_first-satisfies p [] e h = cc
find_first-satisfies p (x ∷ xs) e h = elim (Bool-cases (p x)) [
  | inl y ↦ ground (arith, y, h)
  | inr n ↦ ground (arith, n, h, find_first-satisfies p xs e)
]

find_first-keep :
    (p q : Entry → Bool) (xs : List Entry) (e : Entry)
    → find_first p (keep q xs) ≡ some e
    → q e ≡ true
find_first-keep p q [] e h = cc
find_first-keep p q (x ∷ xs) e h = elim (Bool-cases (q x)) [
  | inl y ↦ elim (Bool-cases (p x)) [
    | inl z ↦ ground (arith, y, z, h)
    | inr n ↦ ground (arith, y, n, h, find_first-keep p q xs e)
  ]
  | inr n ↦ ground (arith, n, h, find_first-keep p q xs e)
]

-- The lanes of a run, as they ask for their entries one after the other.
unfoldable pub reuse_lanes : Run → List (String × String) → List Reuse
reuse_lanes run [] = []
reuse_lanes run ((call_id, signature) ∷ lanes) =
    let (reuse, run') = reuse_lane run call_id signature in reuse ∷ reuse_lanes run' lanes

-- What the lanes reuse, one after the other: an entry that is claimed by signature is not among the calls
-- whose entries were claimed or reused before, and every entry that is claimed or reused is among them
-- from then on.
abbrev pub IsClaimedOnce : List String → List (String × String) → List Reuse → Type 0
IsClaimedOnce claims [] [] = Unit
IsClaimedOnce claims [] (reuse ∷ reuses) = ⊥
IsClaimedOnce claims (lane ∷ lanes) [] = ⊥
IsClaimedOnce claims ((call_id, signature) ∷ lanes) (own entry ∷ reuses) =
    IsClaimedOnce (call_id ∷ claims) lanes reuses
IsClaimedOnce claims (lane ∷ lanes) (fallback entry ∷ reuses) =
    (any (str_eq entry.call_id) claims ≡ false)
    × IsClaimedOnce (entry.call_id ∷ claims) lanes reuses
IsClaimedOnce claims (lane ∷ lanes) (fresh ∷ reuses) = IsClaimedOnce claims lanes reuses

-- A claim by signature finds nothing, or it takes a free candidate and claims it.
claim_cases :
    (run : Run) (call_id signature : String)
    → (claim_resume_signature_fallback run call_id signature ≡ (none, run))
      ⊎ ((entry : Entry) × (claim_resume_signature_fallback run call_id signature
            ≡ (some entry, record run { claims = entry.call_id ∷ run.claims }))
          × (find_first
                (is_free run call_id)
                (candidates run.index signature (signature_fallback_scope call_id))
              ≡ some entry))
unfolding claim_resume_signature_fallback
claim_cases run call_id signature = elim (Bool-cases (str_eq signature "")) [
  | inl y ↦ inl (rw y refl)
  | inr n ↦
      elim (Option-cases (
        find_first (is_free run call_id)
          (candidates run.index signature (signature_fallback_scope call_id)))) [
            | inl nothing ↦ inl (rw (n, nothing) refl)
            | inr (entry, e) ↦ inr (entry, rw (n, e) refl, e)
          ]
]

-- The calls of `before` are among those of `after`, apart from the empty one, which no claim takes.
abbrev Covers : List String → List String → Type 0
Covers before after =
    (x : String) → str_eq x "" ≡ false → any (str_eq x) before ≡ true → any (str_eq x) after ≡ true

Covers-cons :
    (x : String) (before after : List String)
    → Covers before after
    → Covers (x ∷ before) (x ∷ after)
Covers-cons x before after h y named among = elim (Bool-cases (str_eq y x)) [
  | inl same ↦ rw same refl
  | inr other ↦
      let below : any (str_eq y) before ≡ true = ground (arith, other, among) in
      let above = h y named below in rw other above
]

-- A claim that is free for the run is free of the calls that the run's claims cover.
unclaimed :
    (before : List String) (run : Run) (call_id : String) (entry : Entry)
    → Covers before run.claims
    → is_free run call_id entry ≡ true
    → any (str_eq entry.call_id) before ≡ false
unclaimed before run call_id entry covers free =
    elim (Bool-cases (any (str_eq entry.call_id) before)) [
      | inr apart ↦ apart
      | inl among ↦
          let named : str_eq entry.call_id "" ≡ false = ground (arith, free) in
          let claimed_ = covers entry.call_id named among in absurd (ground (arith, free, claimed_))
    ]

-- What the rest of the lanes does, from the claims that it starts from.
abbrev Rest : List (String × String) → Type 0
Rest lanes =
    (claims : List String) (run : Run)
    → Covers claims run.claims
    → IsClaimedOnce claims lanes (reuse_lanes run lanes)

-- One lane that asks, and the rest.
abbrev IsStep : List String → String × String → List (String × String) → Reuse × Run → Type 0
IsStep claims lane lanes (reuse, run') =
    IsClaimedOnce claims (lane ∷ lanes) (reuse ∷ reuse_lanes run' lanes)

IsStep-claim :
    (claims : List String) (run : Run) (call_id signature : String) (lanes : List (String × String))
    → Covers claims run.claims
    → Rest lanes
    → IsStep claims
        (call_id, signature)
        lanes
        (let (entry, run') = claim_resume_signature_fallback run call_id signature in
          (as_fallback entry, run'))
IsStep-claim claims run call_id signature lanes covers rest =
    elim (claim_cases run call_id signature) [
      | inl e ↦ rw e (rest claims run covers)
      | inr (entry, e, found) ↦
          let free =
            find_first-satisfies (is_free run call_id)
              (candidates run.index signature (signature_fallback_scope call_id)) entry found in
          rw e (
            unclaimed claims run call_id entry covers free,
            rest (entry.call_id ∷ claims) (record run { claims = entry.call_id ∷ run.claims })
                (Covers-cons entry.call_id claims run.claims covers),
          )
    ]

marked-Covers :
    (run : Run) (call_id : String) (claims : List String)
    → Covers claims run.claims
    → Covers (call_id ∷ claims) (mark_resume_signature_claimed run call_id).claims
unfolding mark_resume_signature_claimed
marked-Covers run call_id claims covers x named among =
    let old = covers x named in
    ground (arith, named, among, old, eq_iff x call_id, eq_iff x "", eq_iff call_id "")

IsStep-reuse_cached :
    (claims : List String) (run : Run) (call_id signature : String) (cached : Option Entry)
    (h : Option CacheHit) (lanes : List (String × String))
    → Covers claims run.claims
    → Rest lanes
    → IsStep claims (call_id, signature) lanes (reuse_cached run call_id signature cached h)
IsStep-reuse_cached claims run call_id signature (some entry) (some h) lanes covers rest =
    rest (call_id ∷ claims) (mark_resume_signature_claimed run call_id)
      (marked-Covers run call_id claims covers)
IsStep-reuse_cached claims run call_id signature (some entry) none lanes covers rest =
    IsStep-claim claims run call_id signature lanes covers rest
IsStep-reuse_cached claims run call_id signature none h lanes covers rest =
    IsStep-claim claims run call_id signature lanes covers rest

covered-IsClaimedOnce : (lanes : List (String × String)) → Rest lanes
unfolding reuse_lanes reuse_lane
covered-IsClaimedOnce [] claims run covers = tt
covered-IsClaimedOnce ((call_id, signature) ∷ lanes) claims run covers =
    IsStep-reuse_cached claims run call_id signature (Dict.get run.journal call_id)
      (classify_resume_cache_hit (Dict.get run.journal call_id) signature) lanes covers
      (covered-IsClaimedOnce lanes)

-- However the lanes of a resumed run ask for their entries, an entry that is claimed by signature was
-- neither claimed before, by the run or by an earlier lane, nor reused before under its own call.
pub reuse_lanes-IsClaimedOnce :
    (run : Run) (lanes : List (String × String))
    → IsClaimedOnce run.claims lanes (reuse_lanes run lanes)
reuse_lanes-IsClaimedOnce run lanes = covered-IsClaimedOnce lanes run.claims run λ x named h. h

-- Where the index is that of the journal, an entry that is claimed for a call by a signature was not
-- claimed before, is the entry of another call, is successful, and has this signature; its call is
-- in the scope of the call that claims it.
pub claim_resume_signature_fallback-matches :
    (run : Run) (call_id signature : String) (entry : Entry)
    → run.index ≡ build_resume_signature_index run.journal
    → (claim_resume_signature_fallback run call_id signature).0 ≡ some entry
    → (is_free run call_id entry ≡ true)
      × (matches signature (signature_fallback_scope call_id) entry ≡ true)
claim_resume_signature_fallback-matches run call_id signature entry built h =
    elim (claim_cases run call_id signature) [
      | inl e ↦ absurd (ground (arith, e, h))
      | inr (found, e, first) ↦
          let same : found ≡ entry = ground (arith, e, h) in
          let scope = signature_fallback_scope call_id in
          let from_journal =
            rw (built, candidates-build_resume_signature_index run.journal signature scope, same) at
              first in
          (
            find_first-satisfies (is_free run call_id)
                (keep (matches signature scope) (values run.journal)) entry from_journal,
            find_first-keep (is_free run call_id) (matches signature scope) (values run.journal)
                entry from_journal,
          )
    ]
