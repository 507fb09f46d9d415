-- ===== src/Apply/Yields.antt =====
-- What holds where code of an apply returns, of its value and of the world that it leaves.
use opencode_workflows.Prelude.{
  ◌≡◌, refl, ok-injective, Bool, true, false, Outcome, ok, throw, if◌then◌else◌, subst,
}
use opencode_workflows.Paths.{FilePath}
use opencode_workflows.Apply.{
  Error, Host, World, Io, ◌>>=◌, ◌>>◌, catching, pure, throwing, require, Refusal, continue, handle,
  required_fd_real_path,
}
use opencode_workflows.Apply.Frames.{
  Frame, Keeps, Keeps-bind_from, throw≢ok, required_fd_real_path-eq,
}

pub record Yields {A : Type 0} (m : Io A) (P : A → World → Type 0) : Type 0 where
  pub yields : (w : World) (a : A) → (m w).0 ≡ ok a → P a (m w).1

module _ {A : Type 0} where
  pub Yields-any : (m : Io A) → Yields m (λ a w. Unit {0})
  Yields-any m = record { yields = λ w a h. tt }

  pub Yields-pure : {P : A → World → Type 0} (a : A) → ((w : World) → P a w) → Yields (pure a) P
  Yields-pure {P} a p = record {
    yields = λ w b h. unfold pure in subst (λ x. P x w) (ok-injective (unfold pure in h)) (p w);
  }

  pub Yields-throwing : {P : A → World → Type 0} (e : Error) → Yields (throwing e) P
  Yields-throwing e = record { yields = λ w b h. absurd (throw≢ok e b (unfold throwing in h)) }

  pub Yields-catching :
      {P : A → World → Type 0} {m : Io A} {f : Error → Io A}
      → Yields m P
      → ((e : Error) → Yields (f e) P)
      → Yields (catching m f) P
  Yields-catching {P} {m} {f} h k = record {
    yields = λ w a e. unfold catching in settle (m w) a (λ x. h.yields w x) (unfold catching in e);
  }
    where
      settle :
          (r : Outcome Error A × World) (a : A)
          → ((x : A) → r.0 ≡ ok x → P x r.1)
          → (handle r.0 f r.1).0 ≡ ok a
          → P a (handle r.0 f r.1).1
      settle (ok x, w') a p e = p a e
      settle (throw x, w') a p e = (k x).yields w' a e

  pub Yields-if :
      {P : A → World → Type 0} {m n : Io A} (b : Bool)
      → (b ≡ true → Yields m P)
      → (b ≡ false → Yields n P)
      → Yields (if b then m else n) P
  Yields-if true h k = h refl
  Yields-if false h k = k refl

module _ {A B : Type 0} where
  pub Yields-bind :
      {R : A → World → Type 0} {P : B → World → Type 0} {m : Io A} {f : A → Io B}
      → Yields m R
      → ((a : A) (w : World) → R a w → Yields (f a) P)
      → Yields (m >>= f) P
  Yields-bind {R} {P} {m} {f} h k = record {
    yields = λ w b e. unfold ◌>>=◌ in settle (m w) b (λ x. h.yields w x) (unfold ◌>>=◌ in e);
  }
    where
      settle :
          (r : Outcome Error A × World) (b : B)
          → ((x : A) → r.0 ≡ ok x → R x r.1)
          → (continue r.0 f r.1).0 ≡ ok b
          → P b (continue r.0 f r.1).1
      settle (ok x, w') b p e = (k x w' (p x refl)).yields w' b e
      settle (throw x, w') b p e = absurd (throw≢ok _ _ e)

  -- Where what the first part yields does not matter.
  pub Yields-then :
      {P : B → World → Type 0} {f : A → Io B} (m : Io A)
      → ((a : A) → Yields (f a) P)
      → Yields (m >>= f) P
  Yields-then m k = Yields-bind (Yields-any m) (λ a w u. k a)

-- What follows keeps a relation given what the first part yields.
pub Keeps-bind_yields :
    {frame : Frame} {A B : Type 0} {R : A → World → Type 0} {m : Io A} {f : A → Io B}
    → Keeps frame m
    → Yields m R
    → ((a : A) (w : World) → R a w → Keeps frame (f a))
    → Keeps frame (m >>= f)
Keeps-bind_yields {m} h y k = Keeps-bind_from h (λ w a e. k a (m w).1 (y.yields w a e))

pub Yields-test :
    {B : Type 0} {P : B → World → Type 0} {m : Io B} (test : Bool) (r : Refusal)
    → (test ≡ true → Yields m P)
    → Yields (require test r >> m) P
unfolding require
Yields-test true r h = Yields-then _ (λ a. h refl)
Yields-test false r h = Yields-bind {R = λ a w. ⊥} (Yields-throwing _) (λ a w bad. absurd bad)

pub Yields-real_path :
    (host : Host) (path : FilePath)
    → Yields (required_fd_real_path host path) (λ real w. real ≡ path)
Yields-real_path host path = record {
  yields = λ w real h. required_fd_real_path-eq host path real w h;
}
