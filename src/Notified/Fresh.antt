-- ===== src/Notified/Fresh.antt =====
-- The age and the number of what BoundedTimestampSet of workflow-kernel/lifecycle-control.js holds.
use opencode_workflows.Prelude.{
  ℕ, ◌+◌, ◌≤◌, String, str_eq, Bool-cases, inl, inr, List, [], ◌∷◌, ◌++◌, length, leb, All, arith,
}
use opencode_workflows.Notified.{
  Items, delete, expire, evict, prune, add, has, size, Use, adds, asks, deletes, clears, measures,
  step, run,
}

-- The times of the items do not fall, from `from_ms` on and up to `to_ms`.
unfoldable pub Within : ℕ → ℕ → Items → Type 0
Within from_ms to_ms [] = from_ms ≤ to_ms
Within from_ms to_ms (item ∷ items) = (from_ms ≤ item.1) × Within item.1 to_ms items

-- The clock does not go back between the calls, from `from_ms` on and up to `to_ms`.
unfoldable pub Clock : ℕ → ℕ → List (ℕ × Use) → Type 0
Clock from_ms to_ms [] = from_ms ≤ to_ms
Clock from_ms to_ms (use_of ∷ uses) = (from_ms ≤ use_of.0) × Clock use_of.0 to_ms uses

module _ (from_ms : ℕ) where
  widen : (a b : ℕ) (items : Items) → from_ms ≤ a → Within a b items → Within from_ms b items
  unfolding Within
  widen a b [] h k = omega (arith, h, k)
  widen a b (item ∷ items) h k = (omega (arith, h, k.0), k.1)

pub later : (a b c : ℕ) (items : Items) → b ≤ c → Within a b items → Within a c items
unfolding Within
later a b c [] h k = omega (arith, h, k)
later a b c (item ∷ items) h k = (k.0, later item.1 b c items h k.1)

Within-append :
    (a b : ℕ) (items : Items) (value : String)
    → Within a b items
    → Within a b (items ++ (value, b) ∷ [])
unfolding Within
Within-append a b [] value h = (h, omega arith)
Within-append a b (item ∷ items) value h = (h.0, Within-append item.1 b items value h.1)

Within-delete :
    (value : String) (a b : ℕ) (items : Items) → Within a b items → Within a b (delete value items)
unfolding Within delete
Within-delete value a b [] h = h
Within-delete value a b (item ∷ items) h = elim (Bool-cases (str_eq item.0 value)) [
  | inl same ↦
      rw same (widen a item.1 b (delete value items) h.0 (Within-delete value item.1 b items h.1))
  | inr other ↦ rw other (h.0, Within-delete value item.1 b items h.1)
]

module _ (max_size ttl_ms : ℕ) where
  Within-expire :
      (now_ms a b : ℕ) (items : Items)
      → Within a b items
      → Within a b (expire max_size ttl_ms now_ms items)
  unfolding Within expire
  Within-expire now_ms a b [] h = h
  Within-expire now_ms a b (item ∷ items) h = elim (Bool-cases (leb now_ms (item.1 + ttl_ms))) [
    | inl fresh ↦ rw fresh h
    | inr old ↦ rw old (
        widen a item.1 b (expire max_size ttl_ms now_ms items) h.0
          (Within-expire now_ms item.1 b items h.1))
  ]

  Within-evict :
      (a b : ℕ) (items : Items) → Within a b items → Within a b (evict max_size ttl_ms items)
  unfolding Within evict
  Within-evict a b [] h = h
  Within-evict a b (item ∷ items) h = elim (Bool-cases (leb (length (item ∷ items)) max_size)) [
    | inl few ↦ rw few h
    | inr many ↦
        rw many
          (widen a item.1 b (evict max_size ttl_ms items) h.0 (Within-evict item.1 b items h.1))
  ]

  abbrev IsRecent : ℕ → Items → Type 0
  IsRecent now_ms items = All (λ (item : String × ℕ). now_ms ≤ item.1 + ttl_ms) items

  IsRecent-Within :
      (now_ms a b : ℕ) (items : Items)
      → now_ms ≤ a + ttl_ms
      → Within a b items
      → IsRecent now_ms items
  unfolding Within
  IsRecent-Within now_ms a b [] h k = tt
  IsRecent-Within now_ms a b (item ∷ items) h k =
      let recent : now_ms ≤ item.1 + ttl_ms = omega (arith, h, k.0) in
      (recent, IsRecent-Within now_ms item.1 b items recent k.1)

  pub expire-IsRecent :
      (now_ms a b : ℕ) (items : Items)
      → Within a b items
      → IsRecent now_ms (expire max_size ttl_ms now_ms items)
  unfolding Within expire
  expire-IsRecent now_ms a b [] h = tt
  expire-IsRecent now_ms a b (item ∷ items) h = elim (Bool-cases (leb now_ms (item.1 + ttl_ms))) [
    | inl fresh ↦
        let recent : now_ms ≤ item.1 + ttl_ms = ground (arith, fresh) in
        rw fresh (recent, IsRecent-Within now_ms item.1 b items recent h.1)
    | inr old ↦ rw old (expire-IsRecent now_ms item.1 b items h.1)
  ]

  pub evict-IsRecent :
      (now_ms : ℕ) (items : Items)
      → IsRecent now_ms items
      → IsRecent now_ms (evict max_size ttl_ms items)
  unfolding evict
  evict-IsRecent now_ms [] h = tt
  evict-IsRecent now_ms (item ∷ items) h =
      elim (Bool-cases (leb (length (item ∷ items)) max_size)) [
        | inl few ↦ rw few h
        | inr many ↦ rw many (evict-IsRecent now_ms items h.1)
      ]

  pub length-evict : (items : Items) → length (evict max_size ttl_ms items) ≤ max_size
  unfolding evict
  length-evict [] = omega arith
  length-evict (item ∷ items) = let rest = length-evict items in ground (arith, rest)

  Within-prune :
      (now_ms a b : ℕ) (items : Items)
      → Within a b items
      → Within a b (prune max_size ttl_ms now_ms items)
  unfolding prune
  Within-prune now_ms a b items h =
      Within-evict a b (expire max_size ttl_ms now_ms items) (Within-expire now_ms a b items h)

  pub Within-step :
      (a b : ℕ) (use_of : Use) (items : Items)
      → a ≤ b
      → Within 0 a items
      → Within 0 b (step max_size ttl_ms (b, use_of) items)
  unfolding step add has size
  Within-step a b (adds value) items h k =
      Within-prune b 0 b (delete value (prune max_size ttl_ms b items) ++ (value, b) ∷ []) (
        Within-append 0 b (delete value (prune max_size ttl_ms b items)) value (
          Within-delete value 0 b (prune max_size ttl_ms b items)
            (Within-prune b 0 b items (later 0 a b items h k))))
  Within-step a b (asks value) items h k = Within-prune b 0 b items (later 0 a b items h k)
  Within-step a b (deletes value) items h k = Within-delete value 0 b items (later 0 a b items h k)
  Within-step a b clears items h k = unfold Within in omega arith
  Within-step a b measures items h k = Within-prune b 0 b items (later 0 a b items h k)

  pub Within-run :
      (a b : ℕ) (uses : List (ℕ × Use)) (items : Items)
      → Clock a b uses
      → Within 0 a items
      → Within 0 b (run max_size ttl_ms uses items)
  unfolding run Clock
  Within-run a b [] items h k = later 0 a b items h k
  Within-run a b ((now_ms, use_of) ∷ uses) items h k =
      Within-run now_ms b uses (step max_size ttl_ms (now_ms, use_of) items) h.1
        (Within-step a now_ms use_of items h.0 k)
