-- ===== src/Retries/Meets.antt =====
-- Where code of an attempt runs from a state, and what holds of the value and the state that it leaves:
-- the rules by which that follows the code.
use opencode_workflows.Prelude.{Bool, true, false, List, ◌∷◌, Outcome, ok, throw, if◌then◌else◌}
use opencode_workflows.Budget.{Num}
use opencode_workflows.Retries.{LaneError}
use opencode_workflows.Retries.Loop.{
  LaneCall, LaneAnswer, LaneWorld, LaneIo, returning, failing, asking, attempting, attended,
  followed, ◌>>=◌,
}

-- Where code runs from P, what it returns is in Q with the world it leaves, and a throw leaves E.
abbrev pub Lands :
    {S A : Type 0} → (A → S → Type 0) → (S → Type 0) → Outcome LaneError A × S → Type 0
Lands Q E (ok a, w) = Q a w
Lands Q E (throw e, w) = E w

pub record Meets {num : Num} {A : Type 0} (P : LaneWorld num → Type 0) (m : LaneIo num A)
    (Q : A → LaneWorld num → Type 0) (E : LaneWorld num → Type 0) : Type 0 where
  pub meets : (w : LaneWorld num) → P w → Lands Q E (m w)

module _ {num : Num} {P E : LaneWorld num → Type 0} where
  pub Meets-returning :
      {A : Type 0} (Q : A → LaneWorld num → Type 0) (a : A)
      → ((w : LaneWorld num) → P w → Q a w)
      → Meets P (returning a) Q E
  unfolding returning
  Meets-returning Q a h = record { meets = λ w p. h w p }

  pub Meets-failing :
      {A : Type 0} (Q : A → LaneWorld num → Type 0) (e : LaneError)
      → ((w : LaneWorld num) → P w → E w)
      → Meets P (failing {A = A} e) Q E
  unfolding failing
  Meets-failing Q e h = record { meets = λ w p. h w p }

  pub Meets-bind :
      {A B : Type 0} (R : A → LaneWorld num → Type 0) (Q : B → LaneWorld num → Type 0)
      {m : LaneIo num A} {f : A → LaneIo num B}
      → Meets P m R E
      → ((a : A) → Meets (R a) (f a) Q E)
      → Meets P (m >>= f) Q E
  unfolding ◌>>=◌
  Meets-bind {A} {B} R Q {m} {f} h g = record { meets = λ w p. settle (m w) (h.meets w p) }
    where
      settle :
          (o : Outcome LaneError A × LaneWorld num) → Lands R E o → Lands Q E (followed o.0 f o.1)
      settle (ok a, w) r = (g a).meets w r
      settle (throw e, w) r = r

  pub Meets-attempting :
      {A : Type 0} (D : LaneWorld num → Type 0) (Q : A → LaneWorld num → Type 0) {m : LaneIo num A}
      {f : LaneError → LaneIo num A}
      → Meets P m Q D
      → ((e : LaneError) → Meets D (f e) Q E)
      → Meets P (attempting m f) Q E
  unfolding attempting
  Meets-attempting {A} D Q {m} {f} h g = record { meets = λ w p. settle (m w) (h.meets w p) }
    where
      settle :
          (o : Outcome LaneError A × LaneWorld num) → Lands Q D o → Lands Q E (attended o.0 f o.1)
      settle (ok a, w) r = r
      settle (throw e, w) r = (g e).meets w r

  pub Meets-if :
      {A : Type 0} (Q : A → LaneWorld num → Type 0) {m n : LaneIo num A} (b : Bool)
      → Meets P m Q E
      → Meets P n Q E
      → Meets P (if b then m else n) Q E
  Meets-if Q true h g = h
  Meets-if Q false h g = g

  pub Meets-asking :
      {A : Type 0} (c : LaneCall) (answer : LaneAnswer num A)
      → ((w : LaneWorld num) (calls : List LaneCall) → P w → P (record w { calls = calls }))
      → ((w : LaneWorld num) (calls : List LaneCall) → P w → E (record w { calls = calls }))
      → Meets P (asking num c answer) (λ a. P) E
  unfolding asking
  Meets-asking {A} c answer h g = record { meets = λ w p. settle (answer (c ∷ w.calls)) w p }
    where
      settle :
          (o : Outcome LaneError A) (w : LaneWorld num)
          → P w
          → Lands (λ a. P) E (o, record w { calls = c ∷ w.calls })
      settle (ok a) w p = h w _ p
      settle (throw e) w p = g w _ p
