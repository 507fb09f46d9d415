-- ===== src/Apply/Frames.antt =====
-- What code of an apply does to the files, as a relation between the worlds before and after: the rules
-- by which it follows the code.
use opencode_workflows.Prelude.{
  ◌≡◌, refl, Bool, true, false, Option, none, some, Outcome, ok, throw, Bool-cases, ok-injective,
  ap, sym, ◌∙◌, inl, inr, ◌∷◌, if◌then◌else◌,
}
use opencode_workflows.Paths.{FilePath}
use opencode_workflows.Apply.{
  Error, Host, World, Io, ◌>>=◌, ◌>>◌, catching, pure, throwing, call, reading, require, Call,
  Answer, Refusal, continue, handle, required_fd_real_path, linked, reads_link,
}

pub throw≢ok {ℓ} : {A : Type ℓ} (e : Error) (a : A) → ¬ (◌≡◌ {A = Outcome Error A} (throw e) (ok a))
throw≢ok e a h = cc

abbrev error_or {ℓ} : {A : Type ℓ} → Error → Outcome Error A → Error
error_or d (ok a) = d
error_or d (throw e) = e

pub throw-injective {ℓ} :
    {A : Type ℓ} {x y : Error} → ◌≡◌ {A = Outcome Error A} (throw x) (throw y) → x ≡ y
throw-injective {x = x} h = ap (error_or x) h

-- A relation that holds where no file changes, and is transitive.
pub record Frame : Type 1 where
  pub R : World → World → Type 0
  pub same : (w w' : World) → w'.files ≡ w.files → R w w'
  pub trans : (w w' w'' : World) → R w w' → R w' w'' → R w w''

abbrev pub same_files : Frame
same_files = record {
  R = λ w w'. w'.files ≡ w.files;
  same = λ w w' e. e;
  trans = λ w w' w'' h k. k ∙ h;
}

-- Code keeps the relation, whether it returns or throws.
pub record Keeps (frame : Frame) {A : Type 0} (m : Io A) : Type 0 where
  pub keeps : (w : World) → frame.R w (m w).1

module _ {frame : Frame} where
  open frame use {R, same, trans}

  module _ {A : Type 0} where
    pub Keeps-pure : (a : A) → Keeps frame (pure a)
    Keeps-pure a = record { keeps = λ w. unfold pure in same w w refl }

    pub Keeps-reading : (f : World → A) → Keeps frame (reading f)
    Keeps-reading f = record { keeps = λ w. unfold reading in same w w refl }

    pub Keeps-throwing : (e : Error) → Keeps frame (throwing {A = A} e)
    Keeps-throwing e = record { keeps = λ w. unfold throwing in same w w refl }

    pub Keeps-call : (c : Call) (answer : Answer A) → Keeps frame (call c answer)
    Keeps-call c answer = record { keeps = λ w. unfold call in same w _ refl }

    pub Keeps-catching :
        {m : Io A} {f : Error → Io A}
        → Keeps frame m
        → ((e : Error) → Keeps frame (f e))
        → Keeps frame (catching m f)
    Keeps-catching {m} {f} h k = record {
      keeps = λ w. unfold catching in settle w (m w) (h.keeps w);
    }
      where
        settle : (w : World) (r : Outcome Error A × World) → R w r.1 → R w (handle r.0 f r.1).1
        settle w (ok a, w') s = s
        settle w (throw e, w') s = trans w w' _ s ((k e).keeps w')

    pub Keeps-if :
        {m n : Io A} (b : Bool)
        → (b ≡ true → Keeps frame m)
        → (b ≡ false → Keeps frame n)
        → Keeps frame (if b then m else n)
    Keeps-if true h k = h refl
    Keeps-if false h k = k refl

    pub Keeps-option :
        {V : Type 0} {n : Io A} {f : V → Io A} (o : Option V)
        → (o ≡ none → Keeps frame n)
        → ((v : V) → o ≡ some v → Keeps frame (f v))
        → Keeps frame (elim o [ none ↦ n | some v ↦ f v ])
    Keeps-option none h k = h refl
    Keeps-option (some v) h k = k v refl

  pub Keeps-modify :
      (f : World → World) → ((w : World) → (f w).files ≡ w.files) → Keeps frame (λ w. (ok tt, f w))
  Keeps-modify f h = record { keeps = λ w. same w (f w) (h w) }

  module _ {A B : Type 0} where
    -- What follows may use that the part returned, and where.
    pub Keeps-bind_from :
        {m : Io A} {f : A → Io B}
        → Keeps frame m
        → ((w : World) (a : A) → (m w).0 ≡ ok a → Keeps frame (f a))
        → Keeps frame (m >>= f)
    Keeps-bind_from {m} {f} h k = record {
      keeps = λ w. unfold ◌>>=◌ in settle w (m w) (λ a e. k w a e) (h.keeps w);
    }
      where
        settle :
            (w : World) (r : Outcome Error A × World)
            → ((a : A) → r.0 ≡ ok a → Keeps frame (f a))
            → R w r.1
            → R w (continue r.0 f r.1).1
        settle w (ok a, w') next s = trans w w' _ s ((next a refl).keeps w')
        settle w (throw e, w') next s = s

    pub Keeps-bind :
        {m : Io A} {f : A → Io B}
        → Keeps frame m
        → ((a : A) → Keeps frame (f a))
        → Keeps frame (m >>= f)
    Keeps-bind h k = Keeps-bind_from h (λ w a e. k a)

  pub Keeps-require : (test : Bool) (r : Refusal) → Keeps frame (require test r)
  unfolding require
  Keeps-require true r = Keeps-pure tt
  Keeps-require false r = Keeps-throwing _

  -- After a test the code may rely on it.
  pub Keeps-test :
      {B : Type 0} {m : Io B} (test : Bool) (r : Refusal)
      → (test ≡ true → Keeps frame m)
      → Keeps frame (require test r >> m)
  unfolding require throwing
  Keeps-test true r h = Keeps-bind (Keeps-pure tt) (λ a. h refl)
  Keeps-test false r h = Keeps-bind_from (Keeps-throwing _) (λ w a e. absurd (throw≢ok _ _ e))

  pub Keeps-required_fd_real_path :
      (host : Host) (path : FilePath) → Keeps frame (required_fd_real_path host path)
  unfolding required_fd_real_path
  Keeps-required_fd_real_path host path = record {
    keeps = λ w. settle (host.has_read_link (reads_link path ∷ w.calls)) w;
  }
    where
      settle :
          (b : Bool) (w : World)
          → R w (linked host b path (record w { calls = reads_link path ∷ w.calls })).1
      settle true w = same w _ refl
      settle false w = same w _ refl

-- The path that a descriptor is found to have is where it landed.
pub required_fd_real_path-eq :
    (host : Host) (path real : FilePath) (w : World)
    → (required_fd_real_path host path w).0 ≡ ok real
    → real ≡ path
unfolding required_fd_real_path
required_fd_real_path-eq host path real w h =
    elim (Bool-cases (host.has_read_link (reads_link path ∷ w.calls))) [
      | inl e ↦ sym (ok-injective (rw e at h))
      | inr e ↦ absurd (throw≢ok _ _ (rw e at h))
    ]
