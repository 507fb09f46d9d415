-- ===== src/Notified.antt =====
-- BoundedTimestampSet of workflow-kernel/lifecycle-control.js, in which the module keeps the notifications
-- it has yet to deliver and the sessions that are idle. The clock's answers are arguments.
pub mod Fresh
pub mod Remembered
use opencode_workflows.Prelude.{
  ℕ, ◌+◌, String, str_eq, Bool, not, List, [], ◌∷◌, ◌++◌, length, leb, any, keep, if◌then◌else◌,
}

-- The values with the times they were added at, in the order of the map.
abbrev pub Items : Type 0
Items = List (String × ℕ)

abbrev pub holds : String → Items → Bool
holds value items = any (λ (item : String × ℕ). str_eq item.0 value) items

unfoldable pub delete : String → Items → Items
delete value items = keep (λ (item : String × ℕ). not (str_eq item.0 value)) items

-- The calls on a set.
pub data Use : Type 0 where
  adds asks deletes : String → Use
  clears measures : Use

module _ (max_size ttl_ms : ℕ) where
  -- The loop over the values that are too old, which ends at the first that is not.
  unfoldable pub expire : ℕ → Items → Items
  expire now_ms [] = []
  expire now_ms (item ∷ items) =
      let rest = expire now_ms items in if leb now_ms (item.1 + ttl_ms) then item ∷ items else rest

  -- The loop over what is above the bound.
  unfoldable pub evict : Items → Items
  evict [] = []
  evict (item ∷ items) =
      let rest = evict items in if leb (length (item ∷ items)) max_size then item ∷ items else rest

  unfoldable pub prune : ℕ → Items → Items
  unfolding expire evict
  prune now_ms items = evict (expire now_ms items)

  unfoldable pub add : String → ℕ → Items → Items
  unfolding prune delete
  add value now_ms items = prune now_ms (delete value (prune now_ms items) ++ (value, now_ms) ∷ [])

  -- What is left of the set, and whether the value is in it.
  unfoldable pub has : String → ℕ → Items → Items × Bool
  unfolding prune
  has value now_ms items = let kept = prune now_ms items in (kept, holds value kept)

  unfoldable pub size : ℕ → Items → Items × ℕ
  unfolding prune
  size now_ms items = let kept = prune now_ms items in (kept, length kept)

  unfoldable pub step : ℕ × Use → Items → Items
  unfolding add has size delete
  step (now_ms, adds value) items = add value now_ms items
  step (now_ms, asks value) items = (has value now_ms items).0
  step (now_ms, deletes value) items = delete value items
  step (now_ms, clears) items = []
  step (now_ms, measures) items = (size now_ms items).0

  unfoldable pub run : List (ℕ × Use) → Items → Items
  unfolding step
  run [] items = items
  run (use_of ∷ uses) items = run uses (step use_of items)
