-- ===== src/Paths/Matching.antt =====
-- What the regular expression that globToRegExp of workflow-kernel/path-policy.js makes of a glob
-- matches.
use opencode_workflows.Prelude.{
  ℕ, ◌≡◌, ◌≢◌, refl, sym, subst, ap, ◌∙◌, ◌↔◌, ◌⊎◌, inl, inr, Bool, true, false, not, ◌&&◌, ◌||◌,
  List, [], ◌∷◌, ◌++◌, all, ◌==◌, ==_iff, arith,
}
use opencode_workflows.Authority.Pattern.{Text, is_line_end}
use opencode_workflows.Paths.{slash}
use opencode_workflows.Paths.Glob.{
  Atom, any_dirs, any_run, segment_run, segment_char, literal, fold_case, after_run,
  after_segment_run, after_dirs, after_char, is_empty, test,
}

abbrev pub in_line : ℕ → Bool
in_line c = not (is_line_end c)

abbrev pub in_segment : ℕ → Bool
in_segment c = not (c == slash)

-- The text is a front of these characters, and a rest that is R.
abbrev pub Splits : (ℕ → Bool) → (Text → Type 0) → Text → Type 0
Splits p R t = (front rest : Text) × (t ≡ front ++ rest) × (all p front ≡ true) × R rest

-- The text is a character that is P, and a rest that is R.
abbrev pub Starts : (ℕ → Type 0) → (Text → Type 0) → Text → Type 0
Starts P R t = (c : ℕ) × (rest : Text) × (t ≡ c ∷ rest) × P c × R rest

-- The texts of an expression: each part takes a front of the text.
abbrev pub Matches : List Atom → Text → Type 0
Matches [] t = t ≡ []
Matches (any_dirs ∷ p) t = Matches p t ⊎ Splits in_line (Starts (λ c. c ≡ slash) (Matches p)) t
Matches (any_run ∷ p) t = Splits in_line (Matches p) t
Matches (segment_run ∷ p) t = Splits in_segment (Matches p) t
Matches (segment_char ∷ p) t = Starts (λ c. c ≢ slash) (Matches p) t
Matches (literal x ∷ p) t = Starts (λ c. fold_case c ≡ fold_case x) (Matches p) t

abbrev head_or : ℕ → Text → ℕ
head_or d [] = d
head_or d (c ∷ t) = c

abbrev tail_of : Text → Text
tail_of [] = []
tail_of (c ∷ t) = t

both : (a b : Bool) → a && b ≡ true → (a ≡ true) × (b ≡ true)
both true b h = (refl, h)
both false b h = cc

Splits-nil : (p : ℕ → Bool) {R : Text → Type 0} → Splits p R [] → R []
Splits-nil p {R} ([], rest, e, h, r) = subst R (sym e) r
Splits-nil p (c ∷ front, rest, e, h, r) = cc

Splits-cons :
    (p : ℕ → Bool) {R : Text → Type 0} (c : ℕ) (t : Text)
    → Splits p R (c ∷ t)
    → R (c ∷ t) ⊎ ((p c ≡ true) × Splits p R t)
Splits-cons p {R} c t ([], rest, e, h, r) = inl (subst R (sym e) r)
Splits-cons p c t (d ∷ front, rest, e, h, r) =
    let same : c ≡ d = ap (head_or c) e in
    let (here, others) = both (p d) (all p front) h in
    inr (ap p same ∙ here, (front, rest, ap tail_of e, others, r))

-- A test that goes on over the characters that are p finds what Splits says.
Splits-test :
    (p : ℕ → Bool) (k g : Text → Bool) {R : Text → Type 0}
    → ((t : Text) → (k t ≡ true) ↔ R t)
    → g [] ≡ k []
    → ((c : ℕ) (t : Text) → g (c ∷ t) ≡ (k (c ∷ t) || (p c && g t)))
    → (t : Text) → (g t ≡ true) ↔ Splits p R t
Splits-test p k g h empty step [] =
    (λ e. ([], [], refl, refl, (h []).0 (sym empty ∙ e)), λ s. empty ∙ (h []).1 (Splits-nil p s))
Splits-test p k g {R} h empty step (c ∷ t) =
    let rest = Splits-test p k g h empty step t in
    (
      λ e. elim (either (k (c ∷ t)) (p c) (g t) (sym (step c t) ∙ e)) [
        | inl here ↦ ([], c ∷ t, refl, refl, (h (c ∷ t)).0 here)
        | inr (goes, later) ↦
            let (front, back, at, fine, r) = rest.0 later in
            (c ∷ front, back, ap (λ (s : Text). c ∷ s) at, rw (goes, fine) refl, r)
      ],
      λ s. step c t ∙ elim (Splits-cons p c t s) [
        | inl here ↦ rw ((h (c ∷ t)).1 here) refl
        | inr (goes, later) ↦ last_true (k (c ∷ t)) (p c) (g t) goes (rest.1 later)
      ],
    )
  where
    either : (a b c : Bool) → a || (b && c) ≡ true → (a ≡ true) ⊎ ((b ≡ true) × (c ≡ true))
    either true b c h = inl refl
    either false true c h = inr (refl, h)
    either false false c h = cc

    last_true : (a b c : Bool) → b ≡ true → c ≡ true → a || (b && c) ≡ true
    last_true true b c h k = refl
    last_true false b c h k = rw (h, k) refl

Starts-test :
    (p : ℕ → Bool) (k : Text → Bool) {P : ℕ → Type 0} {R : Text → Type 0}
    → ((c : ℕ) → (p c ≡ true) ↔ P c)
    → ((t : Text) → (k t ≡ true) ↔ R t)
    → (t : Text) → (after_char p k t ≡ true) ↔ Starts P R t
Starts-test p k q h [] = (λ e. cc, λ (c, rest, e, q, s). cc)
Starts-test p k {P} {R} q h (c ∷ t) = (
  λ e. let (here, later) = both (p c) (k t) e in (c, t, refl, (q c).0 here, (h t).0 later),
  λ (d, rest, e, here, later).
      let first : p c ≡ true = ap p (ap (head_or c) e) ∙ (q d).1 here in
      rw first (ap k (ap tail_of e) ∙ (h rest).1 later),
)

is_empty_iff : (t : Text) → (is_empty t ≡ true) ↔ (t ≡ [])
is_empty_iff [] = (λ e. refl, λ e. refl)
is_empty_iff (c ∷ t) = (λ e. cc, λ e. cc)

not_slash_iff : (c : ℕ) → (in_segment c ≡ true) ↔ (c ≢ slash)
not_slash_iff c = ground (arith, ==_iff c slash)

dirs_iff :
    (k : Text → Bool) {R : Text → Type 0}
    → ((t : Text) → (k t ≡ true) ↔ R t)
    → (t : Text) → (after_dirs k t ≡ true) ↔ Splits in_line (Starts (λ c. c ≡ slash) R) t
unfolding after_dirs
dirs_iff k h t =
    Splits-test in_line (after_char (λ c. c == slash) k) (after_dirs k)
      (Starts-test (λ c. c == slash) k (λ c. ==_iff c slash) h) refl (λ c t. refl) t

either_iff :
    {A B : Type 0} (a b : Bool) → (a ≡ true) ↔ A → (b ≡ true) ↔ B → (a || b ≡ true) ↔ (A ⊎ B)
either_iff true b h k = (λ e. inl (h.0 refl), λ s. refl)
either_iff false b h k = (λ e. inr (k.0 e), λ s. elim s [ inl x ↦ cc (h.1 x) | inr y ↦ k.1 y ])

-- The test of the compiled glob holds of a text exactly where the parts of the expression, each as it
-- says, take up the whole text.
pub test_iff : (p : List Atom) (t : Text) → (test p t ≡ true) ↔ Matches p t
unfolding test after_run after_segment_run
test_iff [] t = is_empty_iff t
test_iff (any_dirs ∷ p) t =
    either_iff (test p t) (after_dirs (test p) t) (test_iff p t) (dirs_iff (test p) (test_iff p) t)
test_iff (any_run ∷ p) t =
    Splits-test in_line (test p) (after_run (test p)) (test_iff p) refl (λ c t. refl) t
test_iff (segment_run ∷ p) t =
    Splits-test in_segment (test p) (after_segment_run (test p)) (test_iff p) refl (λ c t. refl) t
test_iff (segment_char ∷ p) t = Starts-test in_segment (test p) not_slash_iff (test_iff p) t
test_iff (literal x ∷ p) t =
    Starts-test (λ c. fold_case c == fold_case x) (test p) (λ c. ==_iff (fold_case c) (fold_case x))
      (test_iff p) t
