-- ===== src/Apply/Runs.antt =====
-- A run of a sequence of an apply that returned, taken apart into the runs of its parts.
use opencode_workflows.Prelude.{◌≡◌, refl, ap, ok-injective, Outcome, ok, throw, ◌⊎◌, inl, inr}
use opencode_workflows.Apply.{Error, World, Io, ◌>>=◌, continue, handle, catching}
use opencode_workflows.Apply.Frames.{throw≢ok}

module _ {A B : Type 0} where
  bind-run :
      (g : A → Io B) (r : Outcome Error A × World) (b : B)
      → (continue r.0 g r.1).0 ≡ ok b
      → (a : A) × (r.0 ≡ ok a) × ((g a r.1).0 ≡ ok b) × (continue r.0 g r.1 ≡ g a r.1)
  bind-run g (ok a, w) b h = (a, refl, h, refl)
  bind-run g (throw e, w) b h = absurd (throw≢ok _ _ h)

  pub bind-ok :
      (m : Io A) (g : A → Io B) (w : World) (b : B)
      → ((m >>= g) w).0 ≡ ok b
      → (a : A) × ((m w).0 ≡ ok a) × ((g a (m w).1).0 ≡ ok b) × ((m >>= g) w ≡ g a (m w).1)
  unfolding ◌>>=◌
  bind-ok m g w b h = bind-run g (m w) b h

module _ {A : Type 0} where
  handle-run :
      (g : Error → Io A) (r : Outcome Error A × World)
      → ((a : A) × (r.0 ≡ ok a) × (handle r.0 g r.1 ≡ r))
        ⊎ ((e : Error) × (r.0 ≡ throw e) × (handle r.0 g r.1 ≡ g e r.1))
  handle-run g (ok a, w) = inl (a, refl, refl)
  handle-run g (throw e, w) = inr (e, refl, refl)

  pub catching-cases :
      (m : Io A) (g : Error → Io A) (w : World)
      → ((a : A) × ((m w).0 ≡ ok a) × (catching m g w ≡ m w))
        ⊎ ((e : Error) × ((m w).0 ≡ throw e) × (catching m g w ≡ g e (m w).1))
  unfolding catching
  catching-cases m g w = handle-run g (m w)

module _ {A B : Type 0} where
  bind_from-eq :
      (g : A → Io B) (r : Outcome Error A × World) (a : A)
      → r.0 ≡ ok a
      → continue r.0 g r.1 ≡ g a r.1
  bind_from-eq g (ok x, w) a h = ap (λ y. g y w) (ok-injective h)
  bind_from-eq g (throw e, w) a h = absurd (throw≢ok _ _ h)

  pub bind-eq :
      (m : Io A) (g : A → Io B) (w : World) (a : A) → (m w).0 ≡ ok a → (m >>= g) w ≡ g a (m w).1
  unfolding ◌>>=◌
  bind-eq m g w a h = bind_from-eq g (m w) a h
