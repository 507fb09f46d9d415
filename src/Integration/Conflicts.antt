-- ===== src/Integration/Conflicts.antt =====
-- detectPathConflicts finds nothing exactly where every path belongs to one call.
use opencode_workflows.Prelude.{
  ◌≡◌, refl, ap, sym, ◌∙◌, ◌↔◌, String, true, Option, none, some, List, [], ◌∷◌, ok, All, str_eq,
  eq_iff, Bool-cases, Option-cases, inl, inr, arith, ok-injective, Outcome-cases,
}
use opencode_workflows.Prelude.Dict
use opencode_workflows.Prelude.Dict.{Dict, get-put}
use opencode_workflows.Integration.{
  normalize_relative_path, Change, Lane, Scan, meet, scan_changes, scan_lanes,
  detect_path_conflicts,
}

-- The path of the change is safe and belongs to the call.
abbrev pub Owns : (String → Option String) → String → Change → Type 0
Owns owner call_id change =
    (path : String) × (normalize_relative_path change.path ≡ ok path) × (owner path ≡ some call_id)

abbrev pub OwnsAll : (String → Option String) → List Lane → Type 0
OwnsAll owner = All (λ lane. All (Owns owner lane.call_id) lane.paths)

abbrev Extends : Scan → Scan → Type 0
Extends s t =
    (path call_id : String)
    → Dict.get s.seen path ≡ some call_id
    → Dict.get t.seen path ≡ some call_id

-- One path, where it causes no conflict.
quiet_meet :
    (path call_id : String) (s : Scan)
    → (meet (Dict.get s.seen path) path call_id s).conflicts ≡ []
    → let t = meet (Dict.get s.seen path) path call_id s in
      (s.conflicts ≡ []) × Extends s t × (Dict.get t.seen path ≡ some call_id)
quiet_meet path call_id s h = elim (Option-cases (Dict.get s.seen path)) [
  | inl none_yet ↦ rw none_yet (
    rw none_yet at h,
    (λ p c k. get-put s.seen path p call_id ∙ ground (arith, none_yet, k, eq_iff path p)),
    get-put s.seen path path call_id ∙ ground (arith, eq_iff path path),
  )
  | inr (previous, e) ↦ elim (Bool-cases (str_eq previous call_id)) [
    | inl same ↦
        rw (e, same)
          (
            rw (e, same) at h,
            (λ p c k.
                get-put s.seen path p call_id
                ∙ ground (arith, e, k, eq_iff path p, eq_iff previous call_id, same)),
            get-put s.seen path path call_id ∙ ground (arith, eq_iff path path),
          )
    | inr apart ↦ absurd (ground (arith, h, e, apart))
  ]
]

scan_changes-Owns :
    (call_id : String) (changes : List Change) (s t : Scan)
    → scan_changes call_id changes s ≡ ok t
    → t.conflicts ≡ []
    → (s.conflicts ≡ []) × Extends s t × All (Owns (Dict.get t.seen) call_id) changes
unfolding scan_changes
scan_changes-Owns call_id [] s t h none_found =
    let same : s ≡ t = ok-injective h in
    (
      ap (λ u. u.conflicts) same ∙ none_found,
      (λ p c k. ap (λ u. Dict.get u.seen p) (sym same) ∙ k),
      tt,
    )
scan_changes-Owns call_id (change ∷ changes) s t h none_found =
    elim (Outcome-cases (normalize_relative_path change.path)) [
      | inr (e, bad) ↦ absurd (ground (arith, h, bad))
      | inl (path, safe) ↦
          let s' = meet (Dict.get s.seen path) path call_id s in
          let (quiet, grows, rest) =
            scan_changes-Owns call_id changes s' t (rw safe at h) none_found in
          let (quiet0, grows0, mine) = quiet_meet path call_id s quiet in
          (
            quiet0,
            (λ p c k. grows p c (grows0 p c k)),
            ((path, safe, grows path call_id mine), rest),
          )
    ]

Owns-Extends :
    (s t : Scan) (call_id : String) (changes : List Change)
    → Extends s t
    → All (Owns (Dict.get s.seen) call_id) changes
    → All (Owns (Dict.get t.seen) call_id) changes
Owns-Extends s t call_id [] grows h = tt
Owns-Extends s t call_id (change ∷ changes) grows ((path, safe, mine), rest) =
    ((path, safe, grows path call_id mine), Owns-Extends s t call_id changes grows rest)

scan_lanes-OwnsAll :
    (lanes : List Lane) (s t : Scan)
    → scan_lanes lanes s ≡ ok t
    → t.conflicts ≡ []
    → (s.conflicts ≡ []) × Extends s t × OwnsAll (Dict.get t.seen) lanes
unfolding scan_lanes
scan_lanes-OwnsAll [] s t h none_found =
    let same : s ≡ t = ok-injective h in
    (
      ap (λ u. u.conflicts) same ∙ none_found,
      (λ p c k. ap (λ u. Dict.get u.seen p) (sym same) ∙ k),
      tt,
    )
scan_lanes-OwnsAll (lane ∷ lanes) s t h none_found =
    elim (Outcome-cases (scan_changes lane.call_id lane.paths s)) [
      | inr (e, bad) ↦ absurd (ground (arith, h, bad))
      | inl (s', scanned) ↦
          let (quiet, grows, rest) = scan_lanes-OwnsAll lanes s' t (rw scanned at h) none_found in
          let (quiet0, grows0, mine) =
            scan_changes-Owns lane.call_id lane.paths s s' scanned quiet in
          (
            quiet0,
            (λ p c k. grows p c (grows0 p c k)),
            (Owns-Extends s' t lane.call_id lane.paths grows mine, rest),
          )
    ]

-- What was seen agrees with the owner.
abbrev Agrees : (String → Option String) → Scan → Type 0
Agrees owner s = (p c : String) → Dict.get s.seen p ≡ some c → owner p ≡ some c

meet-Agrees :
    (owner : String → Option String) (path call_id : String) (s : Scan)
    → Agrees owner s
    → s.conflicts ≡ []
    → owner path ≡ some call_id
    → let t = meet (Dict.get s.seen path) path call_id s in (t.conflicts ≡ []) × Agrees owner t
meet-Agrees owner path call_id s agrees quiet mine = elim (Option-cases (Dict.get s.seen path)) [
  | inl none_yet ↦ rw none_yet (
    quiet,
    λ p c k.
        let put = get-put s.seen path p call_id in
        let old = agrees p c in ground (arith, k, put, old, mine, eq_iff path p),
  )
  | inr (previous, e) ↦
      let old : owner path ≡ some previous = agrees path previous e in
      let same : str_eq previous call_id ≡ true =
        ground (arith, old, mine, eq_iff previous call_id) in
      rw (e, same)
        (
          quiet,
          λ p c k.
              let put = get-put s.seen path p call_id in
              let old = agrees p c in ground (arith, k, put, old, mine, eq_iff path p),
        )
]

scan_changes-Agrees :
    (owner : String → Option String) (call_id : String) (changes : List Change) (s : Scan)
    → Agrees owner s
    → s.conflicts ≡ []
    → All (Owns owner call_id) changes
    → (t : Scan) × (scan_changes call_id changes s ≡ ok t) × (t.conflicts ≡ []) × Agrees owner t
unfolding scan_changes
scan_changes-Agrees owner call_id [] s agrees quiet h = (s, refl, quiet, agrees)
scan_changes-Agrees owner call_id (change ∷ changes) s agrees quiet ((path, safe, mine), rest) =
    let (quiet', agrees') = meet-Agrees owner path call_id s agrees quiet mine in
    let s' = meet (Dict.get s.seen path) path call_id s in
    let (t, scanned, done, after) =
      scan_changes-Agrees owner call_id changes s' agrees' quiet' rest in
    (t, rw safe scanned, done, after)

scan_lanes-Agrees :
    (owner : String → Option String) (lanes : List Lane) (s : Scan)
    → Agrees owner s
    → s.conflicts ≡ []
    → OwnsAll owner lanes
    → (t : Scan) × (scan_lanes lanes s ≡ ok t) × (t.conflicts ≡ [])
unfolding scan_lanes
scan_lanes-Agrees owner [] s agrees quiet h = (s, refl, quiet)
scan_lanes-Agrees owner (lane ∷ lanes) s agrees quiet (mine, rest) =
    let (s', scanned, quiet', agrees') =
      scan_changes-Agrees owner lane.call_id lane.paths s agrees quiet mine in
    let (t, more, done) = scan_lanes-Agrees owner lanes s' agrees' quiet' rest in
    (t, rw scanned more, done)

-- detectPathConflicts returns no conflict exactly where every changed path is safe and some
-- assignment of one call to each normalized path gives every lane all the paths that it changed:
-- lanes of different calls share no path.
pub detect_path_conflicts-nil_iff :
    (lanes : List Lane)
    → (detect_path_conflicts lanes ≡ ok [])
      ↔ ((owner : String → Option String) × OwnsAll owner lanes)
unfolding detect_path_conflicts
detect_path_conflicts-nil_iff lanes =
    let start : Scan = record { seen = []; conflicts = [] } in
    let nothing : (p : String) → Dict.get start.seen p ≡ none = λ p. (unfold Dict.get in refl) in
    (
      (λ h. elim (Outcome-cases (scan_lanes lanes start)) [
        | inr (e, bad) ↦ absurd (ground (arith, h, bad))
        | inl (t, scanned) ↦
            let quiet : t.conflicts ≡ [] = ok-injective (rw scanned at h) in
            (Dict.get t.seen, (scan_lanes-OwnsAll lanes start t scanned quiet).2)
      ]),
      (λ (owner, mine).
          let (t, scanned, quiet) =
            scan_lanes-Agrees owner lanes start (λ p c k. absurd (ground (arith, k, nothing p)))
              refl mine in
          rw (scanned, quiet) refl),
    )
