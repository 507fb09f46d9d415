-- ===== src/Authority/Narrowing.antt =====
-- A lane's MCP policy permits no call that the run's policy does not permit.
use opencode_workflows.Prelude.{
  ℕ, ◌≡◌, refl, Bool, true, false, not, ◌&&◌, ◌||◌, List, [], ◌∷◌, ◌++◌, Outcome, ok, throw, ◌>>=◌,
  ◌>>◌, arith, any, All, ◌==◌, Bool-cases, inl, inr, sym, ap,
}
use opencode_workflows.Authority.Pattern.{
  Text, text_eq, star, question, is_wildcard, is_literal, wildcard_test, covers_prefix, Policy,
  policy_allows_pattern, parent_allows, unique, unique_from, includes, AuthorityError,
  normalize_pattern_list,
}
use opencode_workflows.Authority.Narrow.{
  DeclaredPolicy, texts, require_covered, declared_allow, narrow_mcp_policy,
}

-- What a pattern means: `*` stands for any characters and `?` for any one.
unfoldable pub glob : Text → Text → Bool
glob [] [] = true
glob [] (x ∷ xs) = false
glob (c ∷ p) [] = elim (c == star) [ true ↦ glob p [] | false ↦ false ]
glob (c ∷ p) (x ∷ xs) = elim (c == star) [
  | true ↦ glob p (x ∷ xs) || glob (c ∷ p) xs
  | false ↦ elim (c == question) [ true ↦ glob p xs | false ↦ c == x && glob p xs ]
]

-- A call is permitted if an allow pattern matches it and no deny pattern does.
unfoldable pub permits : Policy → Text → Bool
permits policy call =
    any (λ p. glob p call) policy.allow && not (any (λ p. glob p call) policy.deny)

abbrev pub ends_with_question : Text → Bool
ends_with_question [] = false
ends_with_question (c ∷ []) = c == question
ends_with_question (c ∷ d ∷ p) = ends_with_question (d ∷ p)

text_eq_sound : (a b : Text) → text_eq a b ≡ true → a ≡ b
unfolding text_eq
text_eq_sound [] [] h = refl
text_eq_sound [] (y ∷ b) h = cc
text_eq_sound (x ∷ a) [] h = cc
text_eq_sound (x ∷ a) (y ∷ b) h = ground (arith, text_eq_sound a b)

glob-wildcard_test : (p t : Text) → wildcard_test p t ≡ true → glob p t ≡ true
unfolding wildcard_test glob
glob-wildcard_test [] [] h = refl
glob-wildcard_test [] (x ∷ t) h = cc
glob-wildcard_test (c ∷ p) [] h = ground (arith, glob-wildcard_test p [])
glob-wildcard_test (c ∷ p) (x ∷ t) h =
    ground
      (arith, glob-wildcard_test p (x ∷ t), glob-wildcard_test (c ∷ p) t, glob-wildcard_test p t)

pub glob-star : (t : Text) → glob (star ∷ []) t ≡ true
unfolding glob
glob-star [] = refl
glob-star (x ∷ t) = ground (arith, glob-star t)

glob-literal : (p t : Text) → is_literal p ≡ true → glob p t ≡ true → t ≡ p
unfolding glob is_literal is_wildcard
glob-literal [] [] l h = refl
glob-literal [] (x ∷ t) l h = cc
glob-literal (c ∷ p) [] l h = ground arith
glob-literal (c ∷ p) (x ∷ t) l h = ground (arith, glob-literal p t)

glob-covers_prefix :
    (parent p t : Text)
    → ends_with_question parent ≡ false
    → covers_prefix parent p ≡ true
    → glob p t ≡ true
    → glob parent t ≡ true
unfolding covers_prefix is_wildcard glob
glob-covers_prefix [] p t e c h = cc
glob-covers_prefix (k ∷ []) p t e c h = let s : k ≡ star = ground arith in rw s (glob-star t)
glob-covers_prefix (k ∷ d ∷ parent) [] t e c h = cc
glob-covers_prefix (k ∷ d ∷ parent) (x ∷ p) [] e c h = ground arith
glob-covers_prefix (k ∷ d ∷ parent) (x ∷ p) (y ∷ t) e c h =
    ground (arith, glob-covers_prefix (d ∷ parent) p t)

parent_allows-glob :
    (parent p t : Text)
    → ends_with_question parent ≡ false
    → parent_allows p parent ≡ true
    → glob p t ≡ true
    → glob parent t ≡ true
parent_allows-glob parent p t e a h = elim (Bool-cases (text_eq parent (star ∷ []))) [
  | inl s ↦ rw (text_eq_sound parent (star ∷ []) s) (glob-star t)
  | inr s ↦ elim (Bool-cases (text_eq parent p)) [
    | inl q ↦ rw (text_eq_sound parent p q) h
    | inr q ↦ elim (Bool-cases (is_literal p)) [
      | inl l ↦ rw (glob-literal p t l h) (glob-wildcard_test parent p (rw (s, q, l) at a))
      | inr l ↦ glob-covers_prefix parent p t e (rw (s, q, l) at a) h
    ]
  ]
]

any-parent_allows :
    (parents : List Text) (p t : Text)
    → All (λ parent. ends_with_question parent ≡ false) parents
    → any (parent_allows p) parents ≡ true
    → glob p t ≡ true
    → any (λ parent. glob parent t) parents ≡ true
any-parent_allows [] p t e a h = cc
any-parent_allows (x ∷ parents) p t e a h = elim (Bool-cases (parent_allows p x)) [
  | inl y ↦ rw (parent_allows-glob x p t e.0 y h)
  | inr n ↦ ground (arith, any-parent_allows parents p t e.1 (rw n at a) h)
]

require_covered-any :
    (parent : Policy) (ps : List Text) (t : Text)
    → All (λ p. ends_with_question p ≡ false) parent.allow
    → require_covered parent ps ≡ ok tt
    → any (λ p. glob p t) ps ≡ true
    → any (λ p. glob p t) parent.allow ≡ true
unfolding require_covered policy_allows_pattern
require_covered-any parent [] t e r h = cc
require_covered-any parent (p ∷ ps) t e r h = elim (Bool-cases (glob p t)) [
  | inl y ↦ any-parent_allows parent.allow p t e (ground arith) y
  | inr n ↦ require_covered-any parent ps t e (ground arith) (rw n at h)
]

any-includes :
    (f : Text → Bool) (seen : List Text) (x : Text)
    → includes seen x ≡ true
    → f x ≡ true
    → any f seen ≡ true
unfolding includes
any-includes f [] x i h = cc
any-includes f (y ∷ seen) x i h = elim (Bool-cases (text_eq x y)) [
  | inl e ↦ let h' : f y ≡ true = rw (sym (text_eq_sound x y e)) h in rw h'
  | inr n ↦ ground (arith, any-includes f seen x (rw n at i) h)
]

pub any-unique_from :
    (f : Text → Bool) (seen xs : List Text)
    → any f xs ≡ true
    → (any f seen || any f (unique_from seen xs)) ≡ true
unfolding unique_from
any-unique_from f seen [] h = cc
any-unique_from f seen (x ∷ xs) h =
    ground
      (arith, any-includes f seen x, any-unique_from f seen xs, any-unique_from f (x ∷ seen) xs)

pub any-append : (f : Text → Bool) (xs ys : List Text) → any f xs ≡ true → any f (xs ++ ys) ≡ true
any-append f [] ys h = cc
any-append f (x ∷ xs) ys h = ground (arith, any-append f xs ys)

covered-cases :
    (c : Outcome AuthorityError (Unit {0})) (k : Outcome AuthorityError Policy) {lane : Policy}
    → (c >> k) ≡ ok lane
    → (c ≡ ok tt) × (k ≡ ok lane)
covered-cases (ok tt) k h = (refl, h)
covered-cases (throw e) k h = cc

narrow-inversion :
    (pa pd : List Text) (a d : Outcome AuthorityError (List Text)) (lane : Policy)
    → let parent : Policy = record { allow = pa; deny = pd } in
      (do
        allow ← a
        require_covered parent allow
        deny ← d
        ok (record { allow = allow; deny = unique (pd ++ deny) }))
        ≡ ok lane
      → (ds : List Text) × (require_covered parent lane.allow ≡ ok tt)
        × (lane.deny ≡ unique (pd ++ ds))
narrow-inversion pa pd (ok allow) (ok ds) lane h =
    let parent : Policy = record { allow = pa; deny = pd } in
    let (covered, made) = covered-cases (require_covered parent allow) _ h in
    (ds, ground (arith, covered, made), ground (arith, made))
narrow-inversion pa pd (ok allow) (throw e) lane h =
    let parent : Policy = record { allow = pa; deny = pd } in
    let (covered, made) = covered-cases (require_covered parent allow) _ h in cc made
narrow-inversion pa pd (throw e) d lane h = cc

-- Where no allow pattern of the run's policy ends in `?`, a call that the narrowed policy of a lane
-- permits is permitted by the run's policy too.
pub narrow_mcp_policy_sound :
    (parent : Policy) (declared : DeclaredPolicy) (pa pd : List Text) (lane : Policy) (call : Text)
    → normalize_pattern_list (texts parent.allow) ≡ ok pa
    → normalize_pattern_list (texts parent.deny) ≡ ok pd
    → All (λ p. ends_with_question p ≡ false) pa
    → narrow_mcp_policy parent declared ≡ ok lane
    → permits lane call ≡ true
    → permits (record { allow = pa; deny = pd }) call ≡ true
unfolding narrow_mcp_policy permits unique
narrow_mcp_policy_sound parent declared pa pd lane call ea ed safe h p =
    let parent' : Policy = record { allow = pa; deny = pd } in
    let (ds, covered, denies) =
      narrow-inversion pa pd (declared_allow declared.allow pa)
        (normalize_pattern_list declared.deny) lane (rw (ea, ed) at h) in
    ground (
      arith,
      require_covered-any parent' lane.allow call safe covered,
      any-append (λ (p : Text). glob p call) pd ds,
      any-unique_from (λ (p : Text). glob p call) [] (pd ++ ds),
      ap (any (λ p. glob p call)) denies,
    )

covers_prefix-question :
    (w : Text) → is_literal w ≡ true → covers_prefix (w ++ question ∷ []) (w ++ star ∷ []) ≡ true
unfolding covers_prefix is_literal is_wildcard
covers_prefix-question [] l = refl
covers_prefix-question (c ∷ []) l = ground arith
covers_prefix-question (c ∷ d ∷ w) l = ground (arith, covers_prefix-question (d ∷ w))

is_literal-star : (w : Text) → is_literal (w ++ star ∷ []) ≡ false
unfolding is_literal is_wildcard
is_literal-star [] = refl
is_literal-star (c ∷ w) = ground (arith, is_literal-star w)

glob-literal_star : (w t : Text) → is_literal w ≡ true → glob (w ++ star ∷ []) (w ++ t) ≡ true
unfolding glob is_literal is_wildcard
glob-literal_star [] t l = glob-star t
glob-literal_star (c ∷ w) t l = ground (arith, glob-literal_star w t)

not-glob-question :
    (w : Text) (x y : ℕ) → is_literal w ≡ true → glob (w ++ question ∷ []) (w ++ x ∷ y ∷ []) ≡ false
unfolding glob is_literal is_wildcard
not-glob-question [] x y l = refl
not-glob-question (c ∷ w) x y l = ground (arith, not-glob-question w x y)

-- A run's pattern that ends in `?` is read like one that ends in `*`: for every literal text w, a
-- run that allows only w? accepts a lane's w*, which permits the calls w x y that w? does not match.
pub question-parent_escapes :
    (w : Text) (x y : ℕ)
    → is_literal w ≡ true
    → let parent : Policy = record { allow = (w ++ question ∷ []) ∷ []; deny = [] } in
      let lane : Policy = record { allow = (w ++ star ∷ []) ∷ []; deny = [] } in
      (require_covered parent lane.allow ≡ ok tt)
      × (permits lane (w ++ x ∷ y ∷ []) ≡ true)
      × (permits parent (w ++ x ∷ y ∷ []) ≡ false)
unfolding require_covered policy_allows_pattern permits
question-parent_escapes w x y l = (
  rw (is_literal-star w, covers_prefix-question w l) (ground arith),
  rw (glob-literal_star w (x ∷ y ∷ []) l),
  rw (not-glob-question w x y l),
)
