-- ===== src/Prelude/Dict.antt =====
-- JavaScript's Map with text keys: an association list in insertion order. Writing a key that is
-- there keeps its place; a deleted key that is written again goes to the end.
use opencode_workflows.Prelude.Tests.{if◌then◌else◌, Bool-cases}
use Prim.Native.String.{String}
use mathlib.Core.Path.{◌≡◌, refl}
use mathlib.Core.Logic.{inl, inr}
use mathlib.Core.Bool.{Bool, true, false}
use mathlib.Core.Option.{Option, none, some}
use mathlib.Core.List.{List, [], ◌∷◌}
use native.Mathlib.Omega.{arith}
use text.Mathlib.Text.{◌==◌}
use text.Mathlib.TextEquality.{eq_iff}

abbrev pub Dict {ℓ} : Type ℓ → Type ℓ
Dict V = List (String × V)

module _ {ℓ} {V : Type ℓ} where
  unfoldable pub get : Dict V → String → Option V
  get [] k = none
  get ((j, v) ∷ d) k = let rest = get d k in if j == k then some v else rest

  unfoldable pub has : Dict V → String → Bool
  has [] k = false
  has ((j, v) ∷ d) k = let rest = has d k in if j == k then true else rest

  unfoldable pub put : Dict V → String → V → Dict V
  put [] k v = (k, v) ∷ []
  put ((j, w) ∷ d) k v = let rest = put d k v in if j == k then (j, v) ∷ d else (j, w) ∷ rest

  unfoldable pub remove : Dict V → String → Dict V
  remove [] k = []
  remove ((j, v) ∷ d) k = let rest = remove d k in if j == k then rest else (j, v) ∷ rest

  pub get-put :
      (d : Dict V) (k j : String) (v : V) → get (put d k v) j ≡ (if k == j then some v else get d j)
  unfolding get put
  get-put [] k j v = refl
  get-put ((i, w) ∷ d) k j v = ground (arith, get-put d k j v, eq_iff i k, eq_iff i j, eq_iff k j)

  pub get-remove :
      (d : Dict V) (k j : String) → get (remove d k) j ≡ (if k == j then none else get d j)
  unfolding get remove
  get-remove [] k j = ground arith
  get-remove ((i, w) ∷ d) k j = ground (arith, get-remove d k j, eq_iff i k, eq_iff i j, eq_iff k j)

  -- Every key stands once.
  abbrev pub IsFresh : String → Dict V → Type 0
  IsFresh k [] = Unit
  IsFresh k ((j, v) ∷ d) = ((j == k) ≡ false) × IsFresh k d

  abbrev pub IsMap : Dict V → Type 0
  IsMap [] = Unit
  IsMap ((j, v) ∷ d) = IsFresh j d × IsMap d

  pub IsFresh-put :
      (d : Dict V) (k j : String) (v : V) → (k == j) ≡ false → IsFresh j d → IsFresh j (put d k v)
  unfolding put
  IsFresh-put [] k j v n f = (n, tt)
  IsFresh-put ((i, w) ∷ d) k j v n f = elim (Bool-cases (i == k)) [
    | inl e ↦ rw e f
    | inr e ↦ rw e (f.0, IsFresh-put d k j v n f.1)
  ]

  pub IsFresh-remove : (d : Dict V) (k j : String) → IsFresh j d → IsFresh j (remove d k)
  unfolding remove
  IsFresh-remove [] k j f = tt
  IsFresh-remove ((i, w) ∷ d) k j f = elim (Bool-cases (i == k)) [
    | inl e ↦ rw e (IsFresh-remove d k j f.1)
    | inr e ↦ rw e (f.0, IsFresh-remove d k j f.1)
  ]

  pub IsMap-put : (d : Dict V) (k : String) (v : V) → IsMap d → IsMap (put d k v)
  unfolding put
  IsMap-put [] k v m = (tt, tt)
  IsMap-put ((i, w) ∷ d) k v m = elim (Bool-cases (i == k)) [
    | inl e ↦ rw e m
    | inr e ↦
        rw e (IsFresh-put d k i v (ground (arith, eq_iff i k, eq_iff k i)) m.0, IsMap-put d k v m.1)
  ]

  pub IsMap-remove : (d : Dict V) (k : String) → IsMap d → IsMap (remove d k)
  unfolding remove
  IsMap-remove [] k m = tt
  IsMap-remove ((i, w) ∷ d) k m = elim (Bool-cases (i == k)) [
    | inl e ↦ rw e (IsMap-remove d k m.1)
    | inr e ↦ rw e (IsFresh-remove d k i m.0, IsMap-remove d k m.1)
  ]
