-- ===== src/Retries/Bounded.antt =====
-- The retry loop of runChildAgent in workflow-kernel/child-agent-runner.js ends.
use opencode_workflows.Prelude.{
  ℕ, ◌+◌, ◌-◌, ◌≤◌, ◌≡◌, ◌≢◌, refl, subst, ok-injective, Bool, true, false, ◌&&◌, Outcome, ok,
  throw, ltb, leb, arith, if◌then◌else◌,
}
use opencode_workflows.Authority.Pattern.{Text}
use opencode_workflows.Budget.{Num}
use opencode_workflows.Retries.{LaneError, LaneClass, transient, terminal, classify_lane_error}
use opencode_workflows.Retries.Loop.{
  checks, sleeps, SessionHost, LaneWorld, LaneLimits, max_attempts, Attempt, Next, again, left_with,
  LaneIo, returning, failing, asking, attempting, attended, followed, ◌>>=◌,
}
use opencode_workflows.Retries.Lane.{
  has_child, retry_transient, after_error_with, after_error, reserving, gate, round, lane_attempt,
  is_corrective,
}
use opencode_workflows.Retries.Effects.{
  Takes, Takes-returning, Takes-failing, Takes-asking, Takes-bind, Takes-attempting, noting-Takes,
  retire_child-Takes, lane_attempt-Takes,
}

-- What holds of a value that is returned.
pub record Gives {num : Num} {A : Type 0} (m : LaneIo num A) (P : A → Type 0) : Type 0 where
  pub gives : (w : LaneWorld num) (a : A) → (m w).0 ≡ ok a → P a

never : {A : Type 0} (e : LaneError) (a : A) → ◌≢◌ {A = Outcome LaneError A} (throw e) (ok a)
never e a h = cc

module _ {num : Num} where
  Gives-returning : {A : Type 0} (P : A → Type 0) (a : A) → P a → Gives {num = num} (returning a) P
  unfolding returning
  Gives-returning P a p = record { gives = λ w b h. subst P (ok-injective h) p }

  Gives-failing : {A : Type 0} (P : A → Type 0) (e : LaneError) → Gives {num = num} (failing e) P
  unfolding failing
  Gives-failing P e = record { gives = λ w b h. absurd (never e b h) }

  Gives-bind :
      {A B : Type 0} (P : B → Type 0) (m : LaneIo num A) {f : A → LaneIo num B}
      → ((a : A) → Gives (f a) P)
      → Gives (m >>= f) P
  unfolding ◌>>=◌
  Gives-bind {A} {B} P m {f} g = record { gives = λ w b. settle (m w) b }
    where
      settle :
          (r : Outcome LaneError A × LaneWorld num) (b : B) → (followed r.0 f r.1).0 ≡ ok b → P b
      settle (ok a, w') b h = (g a).gives w' b h
      settle (throw e, w') b h = absurd (never e b h)

  Gives-attempting :
      {A : Type 0} (P : A → Type 0) {m : LaneIo num A} {f : LaneError → LaneIo num A}
      → Gives m P
      → ((e : LaneError) → Gives (f e) P)
      → Gives (attempting m f) P
  unfolding attempting
  Gives-attempting {A} P {m} {f} h g = record { gives = λ w b. settle (m w) b (h.gives w) }
    where
      settle :
          (r : Outcome LaneError A × LaneWorld num) (b : A)
          → ((a : A) → r.0 ≡ ok a → P a)
          → (attended r.0 f r.1).0 ≡ ok b
          → P b
      settle (ok a, w') b p h = p b h
      settle (throw e, w') b p h = (g e).gives w' b h

  Gives-if :
      {A : Type 0} (P : A → Type 0) {m n : LaneIo num A} (b : Bool)
      → (b ≡ true → Gives m P)
      → (b ≡ false → Gives n P)
      → Gives (if b then m else n) P
  Gives-if P true h g = h refl
  Gives-if P false h g = g refl

  Takes-if :
      {A : Type 0} (k : ℕ) {m n : LaneIo num A} (b : Bool)
      → Takes k m
      → Takes k n
      → Takes k (if b then m else n)
  Takes-if k true h g = h
  Takes-if k false h g = g

-- The rounds that are left after this one.
abbrev pub rounds_left : LaneLimits → Attempt → ℕ
rounds_left limits a =
    (max_attempts limits - a.transient_attempt)
    + (limits.corrective_retries - a.corrective_attempts)

abbrev pub IsSmaller : {V : Type 0} → LaneLimits → Attempt → Next V → Type 0
IsSmaller limits a (again a') = rounds_left limits a' + 1 ≤ rounds_left limits a
IsSmaller limits a (left_with v) = Unit

below_transient :
    (m t c k : ℕ) → leb m t ≡ false → ((m - (t + 1)) + (c - k)) + 1 ≤ (m - t) + (c - k)
below_transient m t c k h = ground arith

below_corrective :
    (m t c k : ℕ) → ltb k c ≡ true → ((m - t) + (c - (k + 1))) + 1 ≤ (m - t) + (c - k)
below_corrective m t c k h = ground arith

middle_true : (a b c : Bool) → (a && b && c) ≡ true → b ≡ true
middle_true true true c h = refl
middle_true true false c h = cc
middle_true false b c h = cc

module _ (num : Num) (host : SessionHost num) {V : Type 0} (result_of : Text → Outcome LaneError V)
    (limits : LaneLimits) where
  transient-IsSmaller :
      (a : Attempt) (e : LaneError) (c : LaneClass)
      → Gives (retry_transient num host result_of limits a e c) (IsSmaller {V = V} limits a)
  transient-IsSmaller a e terminal = Gives-failing _ e
  transient-IsSmaller a e transient =
      Gives-if _ (leb (max_attempts limits) a.transient_attempt) (λ h. Gives-failing _ _)
        λ h. Gives-bind _ _ λ x. Gives-bind _ _ λ x. Gives-bind _ _ λ x. Gives-returning _ _ (
          below_transient (max_attempts limits) a.transient_attempt limits.corrective_retries
            a.corrective_attempts h)

  after_error-IsSmaller :
      (a : Attempt) (e : LaneError)
      → Gives (after_error num host result_of limits a e) (IsSmaller {V = V} limits a)
  unfolding after_error
  after_error-IsSmaller a e = record { gives = λ w n h. (settle (has_child w.child)).gives w n h }
    where
      settle :
          (child : Bool)
          → Gives
              (after_error_with num host result_of limits a e child)
              (IsSmaller {V = V} limits a)
      settle child =
          Gives-if _
            (e.is_correctable && ltb a.corrective_attempts limits.corrective_retries && child)
            (λ h. Gives-bind _ _ λ x. Gives-returning _ _ (
              below_corrective (max_attempts limits) a.transient_attempt limits.corrective_retries
                a.corrective_attempts (middle_true e.is_correctable _ child h)))
            λ h. transient-IsSmaller a e (classify_lane_error e)

  transient-Takes :
      (a : Attempt) (e : LaneError) (c : LaneClass)
      → Takes 0 (retry_transient num host result_of limits a e c)
  transient-Takes a e terminal = Takes-failing e
  transient-Takes a e transient = Takes-if 0 _ (Takes-failing _) (
      Takes-bind 0 0 (retire_child-Takes num host result_of limits) λ x.
        Takes-bind 0 0 (noting-Takes num host)
          λ x. Takes-bind 0 0 (Takes-asking sleeps host.sleep λ calls. refl) λ x. Takes-returning _)

  after_error-Takes :
      (a : Attempt) (e : LaneError) → Takes 0 (after_error num host result_of limits a e)
  unfolding after_error
  after_error-Takes a e = record { takes = λ w. (settle (has_child w.child)).takes w }
    where
      settle : (child : Bool) → Takes 0 (after_error_with num host result_of limits a e child)
      settle child =
          Takes-if 0 _ (Takes-bind 0 0 (noting-Takes num host) λ x. Takes-returning _)
            (transient-Takes a e (classify_lane_error e))

  -- The attempt of a round, and what its `catch` does.
  abbrev pub guarded : Attempt → Bool → LaneIo num (Next V)
  guarded a corrective =
      attempting
        (lane_attempt num host result_of limits a corrective >>= λ v. returning (left_with v))
        (after_error num host result_of limits a)

  pub guarded-Takes : (a : Attempt) (corrective : Bool) → Takes 1 (guarded a corrective)
  guarded-Takes a corrective =
      Takes-attempting 1 0
        (Takes-bind 1 0 (lane_attempt-Takes num host result_of limits a corrective)
          λ v. Takes-returning _)
        (after_error-Takes a)

  guarded-IsSmaller :
      (a : Attempt) (corrective : Bool) → Gives (guarded a corrective) (IsSmaller {V = V} limits a)
  guarded-IsSmaller a corrective =
      Gives-attempting _ (Gives-bind _ _ λ v. Gives-returning _ _ tt) (after_error-IsSmaller a)

  reserving-Gives :
      (P : Next V → Type 0) {m : LaneIo num (Next V)}
      → Gives m P
      → Gives (reserving num host result_of limits m) P
  unfolding reserving
  reserving-Gives P h = record { gives = λ w n e. h.gives _ n e }

  -- A round that goes on leaves fewer.
  pub round-IsSmaller :
      (a : Attempt) → Gives (round num host result_of limits a) (IsSmaller {V = V} limits a)
  unfolding round
  round-IsSmaller a = record {
    gives = λ w n h.
        (Gives-bind _ (gate num host result_of limits) λ x.
            Gives-bind _ (asking num checks host.check) λ x.
              reserving-Gives _
                (guarded-IsSmaller a (is_corrective num host result_of limits a w))).gives
          w n h;
  }
