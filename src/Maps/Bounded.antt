-- ===== src/Maps/Bounded.antt =====
-- A map that forgets its oldest entry stays within its bound and forgets nothing that it just learnt.
use opencode_workflows.Prelude.{
  ◌≡◌, refl, ap, ◌∙◌, ◌⊎◌, inl, inr, ℕ, ◌≤◌, ◌<◌, String, false, none, some, [], ◌∷◌, ◌++◌, str_eq,
  eq_iff, length, arith, if◌then◌else◌, Bool-cases, sym,
}
use opencode_workflows.Prelude.Dict
use opencode_workflows.Prelude.Dict.{Dict, get-remove, IsMap-remove}
use opencode_workflows.Maps.{
  evict, renew, record_pending_approval, peek_pending_approval, register_lane_effort,
  lane_effort_policy_for_child,
}

module _ {V : Type 0} where
  length-evict : (max : ℕ) (d : Dict V) → length (evict max d) ≤ max
  unfolding evict
  length-evict max [] = omega arith
  length-evict max (entry ∷ d) = let rest = length-evict max d in ground (arith, rest)

  get-append :
      (d : Dict V) (key k : String) (value : V)
      → Dict.get d key ≡ none
      → Dict.get (d ++ (key, value) ∷ []) k ≡ (if str_eq key k then some value else Dict.get d k)
  unfolding Dict.get
  get-append [] key k value h = refl
  get-append ((j, v) ∷ d) key k value h =
      ground (arith, get-append d key k value, eq_iff j key, eq_iff j k, eq_iff key k, h)

  get-renew :
      (d : Dict V) (key k : String) (value : V)
      → Dict.get (renew d key value) k ≡ (if str_eq key k then some value else Dict.get d k)
  unfolding renew
  get-renew d key k value =
      let gone : Dict.get (Dict.remove d key) key ≡ none =
        get-remove d key key ∙ ground (arith, eq_iff key key) in
      get-append (Dict.remove d key) key k value gone ∙ ground (arith, get-remove d key k)

  get-evict_latest :
      (max : ℕ) (d : Dict V) (key : String) (value : V)
      → 0 < max
      → Dict.get d key ≡ none
      → Dict.get (evict max (d ++ (key, value) ∷ [])) key ≡ some value
  unfolding evict Dict.get
  get-evict_latest max [] key value positive h = ground (arith, eq_iff key key, positive)
  get-evict_latest max ((j, v) ∷ d) key value positive h =
      let tail_none : Dict.get d key ≡ none = ground (arith, h, eq_iff j key) in
      let rest = get-evict_latest max d key value positive tail_none in
      let kept = get-append d key key value tail_none in
      ground (arith, rest, kept, h, eq_iff j key, eq_iff key key)

  get-evict_fresh :
      (max : ℕ) (d : Dict V) (k : String) → Dict.get d k ≡ none → Dict.get (evict max d) k ≡ none
  unfolding evict Dict.get
  get-evict_fresh max [] k h = refl
  get-evict_fresh max ((j, v) ∷ d) k h =
      let tail_none : Dict.get d k ≡ none = ground (arith, h, eq_iff j k) in
      let rest = get-evict_fresh max d k tail_none in ground (arith, rest, h, eq_iff j k)

  get-IsFresh : (d : Dict V) (k : String) → Dict.IsFresh k d → Dict.get d k ≡ none
  unfolding Dict.get
  get-IsFresh [] k f = refl
  get-IsFresh ((j, v) ∷ d) k f = rw f.0 (get-IsFresh d k f.1)

  -- Under a key that stands once, the eviction keeps the entry or forgets it.
  get-evict :
      (max : ℕ) (d : Dict V) (k : String)
      → Dict.IsMap d
      → (Dict.get (evict max d) k ≡ Dict.get d k) ⊎ (Dict.get (evict max d) k ≡ none)
  unfolding evict Dict.get
  get-evict max [] k m = inl refl
  get-evict max ((j, v) ∷ d) k m =
      let gone = get-evict_fresh max d j (get-IsFresh d j m.0) in
      let rest = get-evict max d k m.1 in
      elim (Bool-cases (str_eq j k)) [
        | inl y ↦
            let same : j ≡ k = (eq_iff j k).0 y in
            let gone_k = ap (λ i. Dict.get (evict max d) i) (sym same) ∙ gone in
            ground (arith, gone_k, y)
        | inr n ↦ ground (arith, rest, n)
      ]

  IsFresh-append :
      (d : Dict V) (k key : String) (value : V)
      → str_eq key k ≡ false
      → Dict.IsFresh k d
      → Dict.IsFresh k (d ++ (key, value) ∷ [])
  IsFresh-append [] k key value n f = (n, tt)
  IsFresh-append ((j, v) ∷ d) k key value n f = (f.0, IsFresh-append d k key value n f.1)

  IsMap-append :
      (d : Dict V) (key : String) (value : V)
      → Dict.IsMap d
      → Dict.get d key ≡ none
      → Dict.IsMap (d ++ (key, value) ∷ [])
  unfolding Dict.get
  IsMap-append [] key value m h = (tt, tt)
  IsMap-append ((j, v) ∷ d) key value m h =
      let apart : str_eq key j ≡ false = ground (arith, h, eq_iff j key, eq_iff key j) in
      (
        IsFresh-append d j key value apart m.0,
        IsMap-append d key value m.1 (ground (arith, h, eq_iff j key)),
      )

  removed_none : (d : Dict V) (key : String) → Dict.get (Dict.remove d key) key ≡ none
  removed_none d key = get-remove d key key ∙ ground (arith, eq_iff key key)

  -- What an entry that is written does to a map with so many places.
  abbrev IsRemembered : ℕ → Dict V → String → V → Dict V → Type 0
  IsRemembered max before key value after =
      (length after ≤ max)
      × (Dict.get after key ≡ some value)
      × ((k : String)
          → str_eq key k ≡ false
          → (Dict.get after k ≡ Dict.get before k) ⊎ (Dict.get after k ≡ none))

  IsRemembered-evict :
      (max : ℕ) (d : Dict V) (key : String) (value : V)
      → 0 < max
      → Dict.IsMap d
      → IsRemembered max d key value (evict max (renew d key value))
  unfolding renew
  IsRemembered-evict max d key value positive m =
      let gone = removed_none d key in
      (
        length-evict max (Dict.remove d key ++ (key, value) ∷ []),
        get-evict_latest max (Dict.remove d key) key value positive gone,
        (λ k apart.
            let kept =
              get-evict max (Dict.remove d key ++ (key, value) ∷ []) k
                (IsMap-append (Dict.remove d key) key value (IsMap-remove d key m) gone) in
            let same = get-renew d key k value in ground (arith, kept, same, apart)),
      )

  -- An approval that is recorded under a hash is found under it, at most sixteen are kept, and the
  -- approval under any other hash is unchanged or forgotten; a map in which every hash stands once.
  record_pending_approval-IsRemembered :
      (pending : Dict V) (hash : String) (entry : V)
      → Dict.IsMap pending
      → str_eq hash "" ≡ false
      → let after = record_pending_approval pending hash entry in
        (length after ≤ 16)
        × (peek_pending_approval after hash ≡ some entry)
        × ((k : String)
            → str_eq hash k ≡ false
            → (peek_pending_approval after k ≡ peek_pending_approval pending k)
              ⊎ (peek_pending_approval after k ≡ none))
  unfolding record_pending_approval peek_pending_approval
  record_pending_approval-IsRemembered pending hash entry m given =
      rw given (IsRemembered-evict 16 pending hash entry (omega arith) m)

  -- The effort that is registered for a child is found for it, at most a thousand are kept, and the
  -- effort of any other child is unchanged or forgotten.
  pub register_lane_effort-IsRemembered :
      (policies : Dict V) (child_id : String) (policy : V)
      → Dict.IsMap policies
      → str_eq child_id "" ≡ false
      → let after = register_lane_effort policies child_id policy in
        (length after ≤ 1000)
        × ((lane_effort_policy_for_child after child_id).0 ≡ some policy)
        × ((k : String)
            → str_eq child_id k ≡ false
            → (Dict.get after k ≡ Dict.get policies k) ⊎ (Dict.get after k ≡ none))
  unfolding register_lane_effort lane_effort_policy_for_child
  register_lane_effort-IsRemembered policies child_id policy m given =
      let (bound, found, others) =
        IsRemembered-evict 1000 policies child_id policy (omega arith) m in
      rw given (bound, rw (found) refl, others)
