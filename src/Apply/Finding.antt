-- ===== src/Apply/Finding.antt =====
-- What code of an apply that starts on given files finds in them, where it returns, and what an ENOENT
-- that it throws shows.
use opencode_workflows.Prelude.{
  ◌≡◌, refl, sym, subst, ap, ◌∙◌, Bool, true, false, Option, String, Outcome, ok, throw,
  ok-injective,
}
use opencode_workflows.Paths.{FilePath}
use opencode_workflows.Apply.{
  Error, system, refused, enoent, World, Io, ◌>>=◌, ◌>>◌, continue, handle, catching, pure,
  throwing, require, Refusal,
}
use opencode_workflows.Apply.Frames.{
  same_files, Keeps, Keeps-throwing, Keeps-pure, throw≢ok, throw-injective,
}

-- Code that starts on these files returns a value with P.
pub record Finds (f : FilePath → Option String) {A : Type 0} (m : Io A) (P : A → Type 0)
    : Type 0 where
  pub finds : (w : World) (a : A) → w.files ≡ f → (m w).0 ≡ ok a → P a

module _ {f : FilePath → Option String} where
  pub Finds-any : {A : Type 0} (m : Io A) → Finds f m (λ a. Unit {0})
  Finds-any m = record { finds = λ w a e h. tt }

  pub Finds-pure : {A : Type 0} {P : A → Type 0} (a : A) → P a → Finds f (pure a) P
  unfolding pure
  Finds-pure {P} a p = record { finds = λ w b e h. subst P (ok-injective h) p }

  pub Finds-throwing : {A : Type 0} {P : A → Type 0} (e : Error) → Finds f (throwing {A = A} e) P
  Finds-throwing {A} e = record { finds = λ w b g h. absurd (throw≢ok e b (unfold throwing in h)) }

  pub Finds-bind :
      {A B : Type 0} {R : A → Type 0} {P : B → Type 0} {m : Io A} {g : A → Io B}
      → Keeps same_files m
      → Finds f m R
      → ((a : A) → R a → Finds f (g a) P)
      → Finds f (m >>= g) P
  Finds-bind {A} {B} {R} {P} {m} {g} keep h k = record {
    finds = λ w b e r. settle (m w) b (keep.keeps w ∙ e) (λ a. h.finds w a e) (unfold ◌>>=◌ in r);
  }
    where
      settle :
          (r : Outcome Error A × World) (b : B)
          → r.1.files ≡ f
          → ((a : A) → r.0 ≡ ok a → R a)
          → (continue r.0 g r.1).0 ≡ ok b
          → P b
      settle (ok a, w') b e p h = (k a (p a refl)).finds w' b e h
      settle (throw x, w') b e p h = absurd (throw≢ok _ _ h)

  pub Finds-test :
      {B : Type 0} {P : B → Type 0} {m : Io B} (test : Bool) (r : Refusal)
      → (test ≡ true → Finds f m P)
      → Finds f (require test r >> m) P
  unfolding require
  Finds-test true r h = Finds-bind (Keeps-pure tt) (Finds-any (pure tt)) λ a u. h refl
  Finds-test false r h =
      Finds-bind {R = λ a. ⊥} (Keeps-throwing _) (Finds-throwing _) λ a bad. absurd bad

  -- The error of the first part may say something of the files too.
  pub Finds-catching :
      {A : Type 0} {P : A → Type 0} {m : Io A} {g : Error → Io A}
      → Keeps same_files m
      → Finds f m P
      → ((w : World) (e : Error) → w.files ≡ f → (m w).0 ≡ throw e → Finds f (g e) P)
      → Finds f (catching m g) P
  Finds-catching {A} {P} {m} {g} keep h k = record {
    finds = λ w a e r.
        settle (m w) a (keep.keeps w ∙ e) (λ x. h.finds w x e) (λ x. k w x e)
          (unfold catching in r);
  }
    where
      settle :
          (r : Outcome Error A × World) (a : A)
          → r.1.files ≡ f
          → ((x : A) → r.0 ≡ ok x → P x)
          → ((e : Error) → r.0 ≡ throw e → Finds f (g e) P)
          → (handle r.0 g r.1).0 ≡ ok a
          → P a
      settle (ok x, w') a e p q h = p a h
      settle (throw x, w') a e p q h = (q x refl).finds w' a e h

-- Code that starts on these files and throws an ENOENT shows that Q.
pub record Blames (f : FilePath → Option String) (Q : Type 0) {A : Type 0} (m : Io A) : Type 0 where
  pub blames : (w : World) → w.files ≡ f → (m w).0 ≡ throw (system enoent) → Q

module _ {f : FilePath → Option String} {Q : Type 0} where
  pub Blames-pure : {A : Type 0} (a : A) → Blames f Q (pure a)
  Blames-pure {A} a = record {
    blames = λ w e h. absurd (throw≢ok (system enoent) a (sym (unfold pure in h)));
  }

  pub Blames-require : (b : Bool) (r : Refusal) → Blames f Q (require b r)
  unfolding require throwing
  Blames-require true r = Blames-pure tt
  Blames-require false r = record {
    blames = λ w e h.
        let bad : ◌≡◌ {A = Outcome Error (Unit {0})} (throw (refused r)) (throw (system enoent)) =
          h in
        cc;
  }

  pub Blames-bind :
      {A B : Type 0} {m : Io A} {g : A → Io B}
      → Keeps same_files m
      → Blames f Q m
      → ((a : A) → Blames f Q (g a))
      → Blames f Q (m >>= g)
  Blames-bind {A} {B} {m} {g} keep h k = record {
    blames = λ w e r. settle (m w) (keep.keeps w ∙ e) (h.blames w e) (unfold ◌>>=◌ in r);
  }
    where
      settle :
          (r : Outcome Error A × World)
          → r.1.files ≡ f
          → (r.0 ≡ throw (system enoent) → Q)
          → (continue r.0 g r.1).0 ≡ throw (system enoent)
          → Q
      settle (ok a, w') e p h = (k a).blames w' e h
      settle (throw x, w') e p h = p (ap throw (throw-injective h))
