-- ===== src/Apply/Calm.antt =====
-- Where the descriptors of workflow-kernel/path-policy.js land where no other process moves a link: at the
-- path that was asked for. Any call may still fail.
use opencode_workflows.Prelude.{
  ◌≡◌, refl, sym, ap, ◌∙◌, inl, inr, String, true, false, Option, none, some, List, [], ◌∷◌, ◌++◌,
  Outcome, ok, throw, Option-cases, arith, all, ok-injective,
}
use mathlib.Core.List.{append_assoc, append-nil}
use opencode_workflows.Authority.Pattern.{Text}
use opencode_workflows.Paths.{FilePath, path_contains, path_eq, path_eq_refl, is_named}
use opencode_workflows.Apply.{
  Error, Host, World, Call, call, opened, written, open_file, write_file, opens, opens_dir, writes,
  resolves, ancestor_escapes, Code, system, refused,
}
use opencode_workflows.Apply.Frames.{Frame, Keeps, throw≢ok}
use opencode_workflows.Apply.Yields.{
  Yields, Yields-pure, Yields-throwing, Yields-catching, Yields-bind, Yields-then, Yields-test,
  Yields-real_path,
}
use opencode_workflows.Apply.Write.{
  open_dir, make_and_open, enter_ancestor, enter_ancestors, split_last, with_front,
}

-- Descriptors land where they were asked to, and the root is its own real path.
pub record IsCalm (host : Host) (root : FilePath) : Type 0 where
  pub root_real :
      (calls : List Call) (p : FilePath) → host.realpath (resolves root ∷ calls) ≡ ok p → p ≡ root
  pub dirs_land :
      (path p : FilePath) (calls : List Call)
      → host.open_dir (opens_dir path ∷ calls) ≡ ok p
      → p ≡ path
  pub files_land :
      (path p : FilePath) (calls : List Call)
      → host.open_file (opens path ∷ calls) ≡ ok p
      → p ≡ path
  pub named : all is_named root ≡ true

-- Only one file may change.
abbrev pub touching : FilePath → Frame
touching target = record {
  R = λ w w'. (p : FilePath) → path_eq target p ≡ false → w'.files p ≡ w.files p;
  same = λ w w' e p apart. ap (λ (f : FilePath → Option String). f p) e;
  trans = λ w w' w'' h k p apart. k p apart ∙ h p apart;
}

pub split_last-none : (parts : List Text) → split_last parts ≡ none → parts ≡ []
split_last-none [] h = refl
split_last-none (s ∷ parts) h = elim (Option-cases (split_last parts)) [
  | inl e ↦ let bad : ◌≡◌ {A = Option (List Text × Text)} (some ([], s)) none = rw e at h in cc
  | inr (p, e) ↦ let bad : with_front s (some p) ≡ none = rw e at h in ground arith
]

pub split_last-eq :
    (parts front : List Text) (last : Text)
    → split_last parts ≡ some (front, last)
    → parts ≡ front ++ last ∷ []
split_last-eq [] front last h = ground (arith, h)
split_last-eq (s ∷ parts) front last h = elim (Option-cases (split_last parts)) [
  | inl e ↦
      let empty : parts ≡ [] = split_last-none parts e in
      let found : ◌≡◌ {A = Option (List Text × Text)} (some ([], s)) (some (front, last)) =
        rw e at h in
      ground (arith, empty, found)
  | inr ((f, l), e) ↦
      let rest = split_last-eq parts f l e in
      let found : ◌≡◌ {A = Option (List Text × Text)} (some (s ∷ f, l)) (some (front, last)) =
        rw e at h in
      ground (arith, rest, found)
]

pub final_path :
    (root : FilePath) (parts front : List Text) (last : Text) (current : FilePath)
    → split_last parts ≡ some (front, last)
    → current ≡ root ++ front
    → current ++ last ∷ [] ≡ root ++ parts
final_path root parts front last current e at =
    ap (λ (q : FilePath). q ++ last ∷ []) at
    ∙ append_assoc root front (last ∷ [])
    ∙ ap (λ (q : FilePath). root ++ q) (sym (split_last-eq parts front last e))

module _ (host : Host) (root : FilePath) (calm : IsCalm host root) where
  pub open_dir-lands : (path : FilePath) → Yields (open_dir host path) (λ p w. p ≡ path)
  unfolding open_dir call
  open_dir-lands path = record { yields = λ w p h. calm.dirs_land path p w.calls h }

  pub make_and_open-lands :
      (path : FilePath) (e : Error) → Yields (make_and_open host path e) (λ p w. p ≡ path)
  make_and_open-lands path (system Code.enoent) = Yields-then _ (λ a. open_dir-lands path)
  make_and_open-lands path (refused r) = Yields-throwing _
  make_and_open-lands path e = Yields-throwing _

  pub enter_ancestor-lands :
      (current : FilePath) (part : Text)
      → Yields (enter_ancestor host root current part) (λ p w. p ≡ current ++ part ∷ [])
  unfolding enter_ancestor
  enter_ancestor-lands current part =
      Yields-bind (Yields-catching (open_dir-lands _) (make_and_open-lands _)) λ handle_path w at.
        Yields-bind (Yields-real_path host handle_path) λ real w' same.
          Yields-test (path_contains root real) ancestor_escapes
            λ inside. Yields-pure real (λ w''. same ∙ at)

  pub enter_ancestors-lands :
      (current : FilePath) (parts : List Text)
      → Yields (enter_ancestors host root current parts) (λ p w. p ≡ current ++ parts)
  unfolding enter_ancestors
  enter_ancestors-lands current [] = Yields-pure current (λ w. sym (append-nil current))
  enter_ancestors-lands current (part ∷ parts) =
      Yields-bind (enter_ancestor-lands current part) λ real w at. record {
        yields = λ w' p h.
            (enter_ancestors-lands real parts).yields w' p h
            ∙ ap (λ (q : FilePath). q ++ parts) at
            ∙ append_assoc current (part ∷ []) parts;
      }

  pub open_file-lands : (path : FilePath) → Yields (open_file host path) (λ p w. p ≡ path)
  unfolding open_file
  open_file-lands path = record {
    yields = λ w p h.
        settle (host.open_file (opens path ∷ w.calls)) w p (λ q. calm.files_land path q w.calls) h;
  }
    where
      settle :
          (r : Outcome Error FilePath) (w : World) (p : FilePath)
          → ((q : FilePath) → r ≡ ok q → q ≡ path)
          → (opened host r (record w { calls = opens path ∷ w.calls })).0 ≡ ok p
          → p ≡ path
      settle (ok q) w p lands h = sym (ok-injective h) ∙ lands q refl
      settle (throw e) w p lands h = absurd (throw≢ok _ _ h)

  pub open_file-touching : (path : FilePath) → Keeps (touching path) (open_file host path)
  unfolding open_file
  open_file-touching path = record {
    keeps =
        λ w. settle (host.open_file (opens path ∷ w.calls)) w (λ q. calm.files_land path q w.calls);
  }
    where
      settle :
          (r : Outcome Error FilePath) (w : World)
          → ((q : FilePath) → r ≡ ok q → q ≡ path)
          → (p : FilePath) → path_eq path p ≡ false
          → (opened host r (record w { calls = opens path ∷ w.calls })).1.files p ≡ w.files p
      settle (ok q) w lands p apart = let at : q ≡ path = lands q refl in rw (at, apart) refl
      settle (throw e) w lands p apart = refl

  pub write_file-touching :
      (path : FilePath) (content : String) → Keeps (touching path) (write_file host path content)
  unfolding write_file
  write_file-touching path content = record {
    keeps = λ w. settle (host.write (writes path ∷ w.calls)) w;
  }
    where
      settle :
          (r : Option (Error × String)) (w : World) (p : FilePath)
          → path_eq path p ≡ false
          → (written host path content r (record w { calls = writes path ∷ w.calls })).1.files p
            ≡ w.files p
      settle none w p apart = rw apart refl
      settle (some (e, left)) w p apart = rw apart refl

  pub write_file-leaves :
      (path : FilePath) (content : String)
      → Yields (write_file host path content) (λ a w. w.files path ≡ some content)
  unfolding write_file
  write_file-leaves path content = record {
    yields = λ w a h. settle (host.write (writes path ∷ w.calls)) w a h;
  }
    where
      settle :
          (r : Option (Error × String)) (w : World) (a : Unit {0})
          → (written host path content r (record w { calls = writes path ∷ w.calls })).0 ≡ ok a
          → (written host path content r (record w { calls = writes path ∷ w.calls })).1.files path
            ≡ some content
      settle none w a h = rw (path_eq_refl path) refl
      settle (some (e, left)) w a h = absurd (throw≢ok _ _ h)
