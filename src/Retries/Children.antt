-- ===== src/Retries/Children.antt =====
-- The child sessions that the attempts of a lane leave among those of the run: runChildAgent of
-- workflow-kernel/child-agent-runner.js.
use opencode_workflows.Prelude.{
  ℕ, ◌≡◌, ◌≢◌, sym, ap, ◌∙◌, ◌⊎◌, inl, inr, Bool, true, false, ◌||◌, Option, none, some, List, [],
  ◌∷◌, Outcome, ok, throw, any, ◌==◌, ==_iff, arith, ltb, Bool-cases,
}
use opencode_workflows.Authority.Pattern.{Text}
use opencode_workflows.Budget.{Num}
use opencode_workflows.Retries.{LaneError}
use opencode_workflows.Retries.Loop.{
  LaneCall, checks, creates, notes, journals, prompts, LaneAnswer, SessionHost, LaneWorld,
  LaneLimits, Attempt, LaneIo, asking, ◌>>=◌, ◌>>◌,
}
use opencode_workflows.Retries.Lane.{
  without, noting, refuse_echo, refuse_if, enter_child, with_id, open_child, checkpoint, spend,
  prompt_child, judged, lane_attempt,
}
use opencode_workflows.Retries.Meets.{
  Meets, Meets-returning, Meets-failing, Meets-bind, Meets-attempting, Meets-if, Meets-asking,
}

abbrev pub is_live : ℕ → List ℕ → Bool
is_live id ids = any (λ x. x == id) ids

pub live-without :
    (id x : ℕ) (ids : List ℕ)
    → is_live x (without id ids) ≡ true
    → (is_live x ids ≡ true) × (x ≢ id)
live-without id x [] h = cc
live-without id x (y ∷ ids) h = elim (Bool-cases (y == id)) [
  | inl same ↦ let rest = live-without id x ids (rw same at h) in ground (arith, rest)
  | inr other ↦
      let rest = live-without id x ids in
      let now : (y == x || is_live x (without id ids)) ≡ true = rw other at h in
      ground (arith, rest, now, other, ==_iff y x, ==_iff y id)
]

-- Every child of the run was one before, or is the lane's own child.
abbrev pub IsTidy : {num : Num} → List ℕ → LaneWorld num → Type 0
IsTidy base w =
    (id : ℕ) → is_live id w.children ≡ true → (is_live id base ≡ true) ⊎ (w.child ≡ some id)

abbrev pub IsFresh : {num : Num} → List ℕ → LaneWorld num → Type 0
IsFresh base w = IsTidy base w × (w.child ≡ none)

module _ (num : Num) (host : SessionHost num) (base : List ℕ) where
  abbrev pub Tidy : LaneWorld num → Type 0
  Tidy w = IsTidy base w

  abbrev pub Fresh : LaneWorld num → Type 0
  Fresh w = IsFresh base w

  -- Code that may be anywhere and leaves the sessions tidy.
  abbrev pub Tidies : {A : Type 0} → LaneIo num A → Type 0
  Tidies m = Meets Tidy m (λ a. Tidy) Tidy

  pub asking-Tidies :
      {A : Type 0} (c : LaneCall) (answer : LaneAnswer num A) → Tidies (asking num c answer)
  asking-Tidies c answer = Meets-asking c answer (λ w calls h. h) λ w calls h. h

  pub noting-Tidies : Tidies (noting num host)
  noting-Tidies = asking-Tidies notes host.note

  pub asking-Fresh :
      {A : Type 0} (c : LaneCall) (answer : LaneAnswer num A)
      → Meets Fresh (asking num c answer) (λ a. Fresh) Tidy
  asking-Fresh c answer = Meets-asking c answer (λ w calls h. h) λ w calls h. h.0

  refuse_if-Tidies : (b : Bool) → Tidies (refuse_if num host b)
  unfolding refuse_echo
  refuse_if-Tidies true =
      Meets-bind (λ a. Tidy) _ noting-Tidies
        λ a. Meets-bind (λ a. Tidy) _ noting-Tidies λ a. Meets-failing _ _ λ w h. h
  refuse_if-Tidies false = Meets-returning _ tt λ w h. h

  enter_child-Tidy : (id : ℕ) → Meets Fresh (enter_child num host id) (λ a. Tidy) Tidy
  enter_child-Tidy id = record { meets = λ w (tidy, none_yet). entered w tidy none_yet }
    where
      entered :
          (w : LaneWorld num)
          → IsTidy base w
          → w.child ≡ none
          → IsTidy base (record w { children = id ∷ without id w.children; child = some id })
      entered w tidy none_yet x found = elim (Bool-cases (id == x)) [
        | inl same ↦ inr (ap some ((==_iff id x).0 same))
        | inr other ↦
            let before = (live-without id x w.children (rw other at found)).0 in
            elim (tidy x before) [
              | inl was ↦ inl was
              | inr child ↦ let bad : ◌≡◌ {A = Option ℕ} none (some x) = sym none_yet ∙ child in cc
            ]
      ]

  with_id-Tidy :
      (id : Option ℕ) (f : ℕ → LaneIo num (Unit {0}))
      → ((n : ℕ) → Meets Fresh (f n) (λ a. Tidy) Tidy)
      → Meets Fresh (with_id num host id f) (λ a. Tidy) Tidy
  with_id-Tidy none f h = Meets-failing _ _ λ w fresh. fresh.0
  with_id-Tidy (some id) f h = h id

  open_child-Tidy :
      (limits : LaneLimits) → Meets Fresh (open_child num host limits) (λ a. Tidy) Tidy
  unfolding open_child
  open_child-Tidy limits =
      Meets-bind (λ a. Fresh) _ (asking-Fresh creates host.create)
        λ created. with_id-Tidy created.id _ λ id.
          Meets-bind (λ a. Tidy) _ (enter_child-Tidy id)
            λ a.
              Meets-bind (λ a. Tidy) _ (asking-Tidies checks host.check)
                λ a.
                  Meets-bind (λ a. Tidy) _ (refuse_if-Tidies _)
                    λ a.
                      Meets-bind (λ a. Tidy) _ (refuse_if-Tidies _)
                        λ a.
                          Meets-bind (λ a. Tidy) _ (refuse_if-Tidies _)
                            λ a.
                              Meets-bind (λ a. Tidy) _ noting-Tidies
                                λ a. Meets-bind (λ a. Tidy) _ noting-Tidies λ a. noting-Tidies

  prompt_child-Tidies : Tidies (prompt_child num host)
  prompt_child-Tidies = record {
    meets = λ w h. (asking-Tidies (prompts w.child) host.prompt).meets w h;
  }

  module _ {V : Type 0} (result_of : Text → Outcome LaneError V) (limits : LaneLimits) where
    judged-Tidies :
        (a : Attempt) (r : Outcome LaneError V) → Tidies (judged num host result_of limits a r)
    judged-Tidies a (ok v) = Meets-returning _ v λ w h. h
    judged-Tidies a (throw e) =
        Meets-if _ (ltb a.corrective_attempts limits.corrective_retries)
          (Meets-failing _ _ λ w h. h)
          (Meets-bind (λ a. Tidy) _ (asking-Tidies journals host.journal)
            λ a. Meets-failing _ e λ w h. h)

    prompted-Tidies :
        (a : Attempt)
        → Tidies (
            checkpoint num host
            >> (prompt_child num host >>= λ reply.
                spend num host reply >> judged num host result_of limits a (result_of reply.text)))
    unfolding checkpoint
    prompted-Tidies a =
        Meets-bind (λ a. Tidy) _ (Meets-attempting Tidy _ noting-Tidies λ e. noting-Tidies)
          λ x.
            Meets-bind (λ a. Tidy) _ prompt_child-Tidies
              λ reply.
                Meets-bind (λ a. Tidy) _ (record { meets = λ w h. h })
                  λ y. judged-Tidies a (result_of reply.text)

    pub corrective-Tidies : (a : Attempt) → Tidies (lane_attempt num host result_of limits a true)
    unfolding lane_attempt
    corrective-Tidies a =
        Meets-bind (λ a. Tidy) _ (Meets-returning _ tt λ w h. h) λ x. prompted-Tidies a

    pub lane_attempt-Tidy :
        (a : Attempt)
        → Meets Fresh (lane_attempt num host result_of limits a false) (λ v. Tidy) Tidy
    unfolding lane_attempt
    lane_attempt-Tidy a = Meets-bind (λ a. Tidy) _ (open_child-Tidy limits) λ x. prompted-Tidies a
