-- ===== src/Notified/Remembered.antt =====
-- What BoundedTimestampSet of workflow-kernel/lifecycle-control.js answers for a value that was added.
use opencode_workflows.Prelude.{
  ℕ, ◌+◌, ◌≤◌, ◌≡◌, refl, ap, ◌∙◌, eq_refl, String, Bool-cases, true, inl, inr, List, [], ◌∷◌, ◌++◌,
  length, leb, All, arith,
}
use opencode_workflows.Notified.{
  Items, holds, delete, expire, evict, prune, add, has, Use, adds, step, run,
}
use opencode_workflows.Notified.Fresh.{
  Within, Clock, later, expire-IsRecent, evict-IsRecent, length-evict, Within-step, Within-run,
}

module _ (max_size ttl_ms : ℕ) where
  EndsIn : String × ℕ → Items → Type 0
  EndsIn item items = (before : Items) × (items ≡ before ++ item ∷ [])

  expire-EndsIn :
      (now_ms : ℕ) (last : String × ℕ) (items : Items)
      → now_ms ≤ last.1 + ttl_ms
      → EndsIn last (expire max_size ttl_ms now_ms (items ++ last ∷ []))
  unfolding expire EndsIn
  expire-EndsIn now_ms last [] h = ([], ground (arith, h))
  expire-EndsIn now_ms last (item ∷ items) h = elim (Bool-cases (leb now_ms (item.1 + ttl_ms))) [
    | inl fresh ↦ (item ∷ items, rw fresh refl)
    | inr old ↦ rw old (expire-EndsIn now_ms last items h)
  ]

  evict-EndsIn :
      (last : String × ℕ) (items : Items)
      → 1 ≤ max_size
      → EndsIn last (evict max_size ttl_ms (items ++ last ∷ []))
  unfolding evict EndsIn
  evict-EndsIn last [] h = ([], ground (arith, h))
  evict-EndsIn last (item ∷ items) h =
      elim (Bool-cases (leb (length (item ∷ items ++ last ∷ [])) max_size)) [
        | inl few ↦ (item ∷ items, rw few refl)
        | inr many ↦ rw many (evict-EndsIn last items h)
      ]

  prune-EndsIn :
      (now_ms : ℕ) (last : String × ℕ) (items : Items)
      → now_ms ≤ last.1 + ttl_ms
      → 1 ≤ max_size
      → EndsIn last items
      → EndsIn last (prune max_size ttl_ms now_ms items)
  unfolding prune EndsIn
  prune-EndsIn now_ms last items h k (before, is_items) =
      let (left, is_left) = expire-EndsIn now_ms last before h in
      let (kept, is_kept) = evict-EndsIn last left k in
      (
        kept,
        ap (λ (l : Items). evict max_size ttl_ms (expire max_size ttl_ms now_ms l)) is_items
            ∙ ap (evict max_size ttl_ms) is_left
            ∙ is_kept,
      )

  holds-last :
      (value : String) (at_ms : ℕ) (items : Items)
      → holds value (items ++ (value, at_ms) ∷ []) ≡ true
  holds-last value at_ms [] = ground (arith, eq_refl value)
  holds-last value at_ms (item ∷ items) =
      let rest = holds-last value at_ms items in ground (arith, rest)

  holds-EndsIn :
      (value : String) (at_ms : ℕ) (items : Items)
      → EndsIn (value, at_ms) items
      → holds value items ≡ true
  unfolding EndsIn
  holds-EndsIn value at_ms items (before, is_items) =
      ap (holds value) is_items ∙ holds-last value at_ms before

  -- Where the clock does not go back, a value that was added, after any calls, is in the set when it is asked
  -- for within the time to live, if the bound is at least one; and the set then keeps at most as many values as
  -- its bound, each of them added at most the time to live ago.
  pub has-add :
      (uses : List (ℕ × Use)) (added_ms now_ms : ℕ) (value : String)
      → Clock 0 added_ms uses
      → added_ms ≤ now_ms
      → now_ms ≤ added_ms + ttl_ms
      → 1 ≤ max_size
      → let asked =
          has max_size ttl_ms value now_ms
            (add max_size ttl_ms value added_ms (run max_size ttl_ms uses [])) in
        (asked.1 ≡ true)
        × (length asked.0 ≤ max_size)
        × All (λ (item : String × ℕ). (now_ms ≤ item.1 + ttl_ms)) asked.0
  unfolding has add prune
  has-add uses added_ms now_ms value clock order h k =
      let before : Items = run max_size ttl_ms uses [] in
      let items : Items = add max_size ttl_ms value added_ms before in
      let old =
        Within-run max_size ttl_ms 0 added_ms uses [] clock (unfold Within in omega arith) in
      let new = later 0 added_ms now_ms items order (
        unfold step in
        Within-step max_size ttl_ms added_ms added_ms (adds value) before (omega arith) old) in
      let last =
        prune-EndsIn added_ms (value, added_ms)
          (delete value (prune max_size ttl_ms added_ms before) ++ (value, added_ms) ∷ [])
          (omega arith) k
          (unfold EndsIn in (delete value (prune max_size ttl_ms added_ms before), refl)) in
      (
        holds-EndsIn value added_ms (prune max_size ttl_ms now_ms items)
            (prune-EndsIn now_ms (value, added_ms) items h k last),
        length-evict max_size ttl_ms (expire max_size ttl_ms now_ms items),
        evict-IsRecent max_size ttl_ms now_ms (expire max_size ttl_ms now_ms items)
            (expire-IsRecent max_size ttl_ms now_ms 0 now_ms items new),
      )
