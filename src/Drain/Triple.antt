-- ===== src/Drain/Triple.antt =====
-- Hoare triples for the code of the drain: what holds where it returns and where it throws.
use opencode_workflows.Prelude.{
  ◌≡◌, refl, Bool, true, false, Outcome, ok, throw, if◌then◌else◌, ◌∷◌,
}
use opencode_workflows.Drain.{
  Error, Call, Answer, World, Drain, continue, handle, ◌>>=◌, catching, pure, lift, call, modify,
  reading,
}

module _ {A : Type 0} where
  abbrev pub Ends : (A → World → Type 0) → (World → Type 0) → Outcome Error A × World → Type 0
  Ends Q E (ok a, w) = Q a w
  Ends Q E (throw e, w) = E w

  -- From a world with P the code returns with Q, or throws and leaves a world with E.
  pub record Triple (P : World → Type 0) (m : Drain A) (Q : A → World → Type 0) (E : World → Type 0)
      : Type 0 where
    pub holds : (w : World) → P w → Ends Q E (m w)

  pub Triple-weaken :
      {P P' E E' : World → Type 0} {Q Q' : A → World → Type 0} {m : Drain A}
      → Triple P m Q E
      → ((w : World) → P' w → P w)
      → ((a : A) (w : World) → Q a w → Q' a w)
      → ((w : World) → E w → E' w)
      → Triple P' m Q' E'
  Triple-weaken {E} {E'} {Q} {Q'} {m} t pre post fail = record {
    holds = λ w p. ends-weaken (m w) (t.holds w (pre w p));
  }
    where
      ends-weaken : (r : Outcome Error A × World) → Ends Q E r → Ends Q' E' r
      ends-weaken (ok a, w') q = post a w' q
      ends-weaken (throw e, w') h = fail w' h

module _ {A : Type 0} where
  pub Triple-pure :
      {Q : A → World → Type 0} {E : World → Type 0} (a : A) → Triple (Q a) (pure a) Q E
  Triple-pure a = record { holds = λ w p. unfold pure in p }

  pub Triple-throw :
      {P E : World → Type 0} {Q : A → World → Type 0} (e : Error)
      → ((w : World) → P w → E w)
      → Triple P (lift (throw e)) Q E
  Triple-throw e h = record { holds = λ w p. unfold lift in h w p }

  Ends-call :
      (Q E : World → Type 0) (r : Outcome Error A) (w : World) → Q w → E w → Ends (λ _. Q) E (r, w)
  Ends-call Q E (ok a) w q e = q
  Ends-call Q E (throw x) w q e = e

module _ {A : Type 0} {P E : World → Type 0} where
  pub Triple-reading :
      {Q : A → World → Type 0} (f : World → A)
      → ((w : World) → P w → Q (f w) w)
      → Triple P (reading f) Q E
  Triple-reading f h = record { holds = λ w p. unfold reading in h w p }

  pub Triple-lift : (r : Outcome Error A) → ((w : World) → P w → E w) → Triple P (lift r) (λ _. P) E
  Triple-lift (ok a) h = record { holds = λ w p. unfold lift in p }
  Triple-lift (throw e) h = record { holds = λ w p. unfold lift in h w p }

  pub Triple-call :
      {Q : World → Type 0} (c : Call) (answer : Answer A)
      → ((w : World) → P w → Q (record w { calls = c ∷ w.calls }))
      → ((w : World) → Q w → E w)
      → Triple P (call c answer) (λ _. Q) E
  Triple-call {Q = Q} c answer step fail = record {
    holds = λ w p.
        let w' = record w { calls = c ∷ w.calls } in
        let q = step w p in unfold call in Ends-call Q E (answer (c ∷ w.calls)) w' q (fail w' q);
  }

  pub Triple-catching :
      {R : World → Type 0} {Q : A → World → Type 0} {m : Drain A} {f : Error → Drain A}
      → Triple P m Q R
      → ((e : Error) → Triple R (f e) Q E)
      → Triple P (catching m f) Q E
  Triple-catching {R} {Q} {m} {f} t h = record {
    holds = λ w p. unfold catching in ends-catching (m w) (t.holds w p);
  }
    where
      ends-catching : (r : Outcome Error A × World) → Ends Q R r → Ends Q E (handle r.0 f r.1)
      ends-catching (ok a, w') q = q
      ends-catching (throw e, w') q = (h e).holds w' q

  pub Triple-if :
      {Q : A → World → Type 0} {m n : Drain A} (b : Bool)
      → (b ≡ true → Triple P m Q E)
      → (b ≡ false → Triple P n Q E)
      → Triple P (if b then m else n) Q E
  Triple-if true t f = t refl
  Triple-if false t f = f refl

pub Triple-modify :
    {P Q E : World → Type 0} (f : World → World)
    → ((w : World) → P w → Q (f w))
    → Triple P (modify f) (λ _. Q) E
Triple-modify f h = record { holds = λ w p. unfold modify in h w p }

module _ {A B : Type 0} {P E : World → Type 0} where
  pub Triple-bind :
      {R : A → World → Type 0} {Q : B → World → Type 0} {m : Drain A} {f : A → Drain B}
      → Triple P m R E
      → ((a : A) → Triple (R a) (f a) Q E)
      → Triple P (m >>= f) Q E
  Triple-bind {R} {Q} {m} {f} t h = record {
    holds = λ w p. unfold ◌>>=◌ in ends-bind (m w) (t.holds w p);
  }
    where
      ends-bind : (r : Outcome Error A × World) → Ends R E r → Ends Q E (continue r.0 f r.1)
      ends-bind (ok a, w') q = (h a).holds w' q
      ends-bind (throw e, w') q = q
