-- ===== src/Authority/Decisions.antt =====
-- What a list of permission rules decides where the last rule that matches wins, for the rules of
-- workflow-kernel/authority-policy.js.
use opencode_workflows.Prelude.{
  ◌≡◌, refl, eq_refl, inl, inr, ◌∙◌, String, Bool, true, false, not, ◌&&◌, ◌||◌, Option, none, some,
  List, [], ◌∷◌, ◌++◌, map, str_eq, arith, any, Bool-cases, subst, eq_iff, if◌then◌else◌,
}
use opencode_workflows.Authority.Pattern.{Text, Policy}
use opencode_workflows.Authority.Narrowing.{glob, glob-star}
use opencode_workflows.Authority.Run.{or_else, is_empty}
use opencode_workflows.Authority.Rules.{
  Action, allow, deny, Rule, on_all, on_pattern, secret_rules, policy_rules, tail_rules,
}

abbrev pub applies : String → Text → Rule → Bool
applies permission target rule =
    (str_eq rule.permission "*" || str_eq rule.permission permission) && glob rule.pattern target

-- The action of the last rule that applies.
unfoldable pub decide : List Rule → String → Text → Option Action
decide [] permission target = none
decide (rule ∷ rules) permission target =
    or_else (decide rules permission target)
      (if applies permission target rule then some rule.action else none)

or_else_assoc {ℓ} :
    {A : Type ℓ} (a b c : Option A) → or_else (or_else a b) c ≡ or_else a (or_else b c)
or_else_assoc none b c = refl
or_else_assoc (some x) b c = refl

or_else-none {ℓ} : {A : Type ℓ} (a : Option A) → a ≡ or_else a none
or_else-none none = refl
or_else-none (some x) = refl

decide-append :
    (xs ys : List Rule) (p : String) (t : Text)
    → decide (xs ++ ys) p t ≡ or_else (decide ys p t) (decide xs p t)
unfolding decide
decide-append [] ys p t = or_else-none (decide ys p t)
decide-append (x ∷ xs) ys p t = rw (decide-append xs ys p t) (or_else_assoc (decide ys p t) _ _)

-- A permission of which a list of rules says nothing.
abbrev pub ignores : String → List Rule → Bool
ignores p rules = not (any (λ rule. str_eq rule.permission "*" || str_eq rule.permission p) rules)

pub decide-ignores :
    (rules : List Rule) (p : String) (t : Text) → ignores p rules ≡ true → decide rules p t ≡ none
unfolding decide
decide-ignores [] p t h = refl
decide-ignores (r ∷ rules) p t h = ground (arith, decide-ignores rules p t)

decide-map :
    (q : String) (action : Action) (ps : List Text) (t : Text)
    → decide (map (on_pattern q action) ps) q t
      ≡ (if any (λ p. glob p t) ps then some action else none)
unfolding decide
decide-map q action [] t = refl
decide-map q action (p ∷ ps) t = ground (arith, eq_refl q, decide-map q action ps t)

-- A pattern policy's own rules: a deny pattern wins, then an allow pattern.
pub decide-policy_rules :
    (q : String) (oks ds : List Text) (t : Text)
    → decide (policy_rules q (record { allow = oks; deny = ds })) q t ≡ (
        if any (λ p. glob p t) ds
        then some deny
        else if any (λ p. glob p t) oks
        then some allow
        else if is_empty oks
        then some deny
        else none)
unfolding policy_rules decide
decide-policy_rules q [] ds t = rw (decide-map q deny ds t) (ground (arith, eq_refl q, glob-star t))
decide-policy_rules q (a ∷ oks) ds t =
    rw
      (
        decide-append (map (on_pattern q allow) (a ∷ oks)) (map (on_pattern q deny) ds) q t,
        decide-map q deny ds t,
        decide-map q allow (a ∷ oks) t,
      )
      (ground arith)

ignores-map :
    (p q : String) (action : Action) (ps : List Text)
    → (str_eq q "*" || str_eq q p) ≡ false
    → ignores p (map (on_pattern q action) ps) ≡ true
ignores-map p q action [] h = refl
ignores-map p q action (x ∷ ps) h = rw h (ignores-map p q action ps h)

pub decide-other_policy :
    (p q : String) (policy : Policy) (t : Text)
    → (str_eq q "*" || str_eq q p) ≡ false
    → decide (policy_rules q policy) p t ≡ none
unfolding policy_rules
decide-other_policy p q policy t h =
    decide-append head
      (map (on_pattern q allow) policy.allow ++ map (on_pattern q deny) policy.deny) p t
    ∙ rw
        (
          decide-append (map (on_pattern q allow) policy.allow)
              (map (on_pattern q deny) policy.deny) p t,
          decide-ignores (map (on_pattern q allow) policy.allow) p t
              (ignores-map p q allow policy.allow h),
          decide-ignores (map (on_pattern q deny) policy.deny) p t
              (ignores-map p q deny policy.deny h),
        )
        (decide-ignores head p t (ground (arith, h)))
  where
    head : List Rule
    head = if is_empty policy.allow then on_all deny q ∷ [] else []

-- The permissions whose targets are read.
abbrev pub reads : String → Bool
reads p = str_eq "read" p || str_eq "grep" p || str_eq "glob" p || str_eq "list" p || str_eq "lsp" p

-- One secret glob.
abbrev five : Text → List Rule
five g =
    on_pattern "read" deny g
    ∷ on_pattern "grep" deny g
    ∷ on_pattern "glob" deny g
    ∷ on_pattern "list" deny g
    ∷ on_pattern "lsp" deny g
    ∷ []

decide-five :
    (p : String) (g t : Text)
    → decide (five g) p t ≡ (if reads p && glob g t then some deny else none)
unfolding decide
decide-five p g t = ground arith

pub decide-secret_rules :
    (p : String) (globs : List Text) (t : Text)
    → decide (secret_rules globs) p t
      ≡ (if reads p && any (λ g. glob g t) globs then some deny else none)
unfolding secret_rules
decide-secret_rules p [] t = unfold decide in ground arith
decide-secret_rules p (g ∷ globs) t =
    decide-append (five g) (secret_rules globs) p t
    ∙ rw (decide-five p g t, decide-secret_rules p globs t) (ground arith)

-- A later rule decides.
pub decided_later :
    (xs ys : List Rule) (p : String) (t : Text) {x : Action}
    → decide ys p t ≡ some x
    → decide (xs ++ ys) p t ≡ some x
decided_later xs ys p t h = decide-append xs ys p t ∙ rw h

-- Nothing later applies.
pub decided_here :
    (xs ys : List Rule) (p : String) (t : Text) {o : Option Action}
    → decide ys p t ≡ none
    → decide xs p t ≡ o
    → decide (xs ++ ys) p t ≡ o
decided_here xs ys p t h k = decide-append xs ys p t ∙ rw h k

-- The permissions that a read-class name is not, as the later rules name them.
pub record IsQuiet (p : String) : Type 0 where
  pub mcp : (str_eq "mcp" "*" || str_eq "mcp" p) ≡ false
  pub bash : (str_eq "bash" "*" || str_eq "bash" p) ≡ false
  pub last : ignores p tail_rules ≡ true
  pub edit : (str_eq "edit" p || str_eq "apply_patch" p) ≡ false
  pub web : (str_eq "webfetch" p || str_eq "websearch" p) ≡ false

pub reads-IsQuiet : (p : String) → reads p ≡ true → IsQuiet p
reads-IsQuiet p h = elim (Bool-cases (str_eq "read" p)) [
  | inl e ↦
      subst IsQuiet ((eq_iff "read" p).0 e)
        (record { mcp = refl; bash = refl; last = refl; edit = refl; web = refl })
  | inr n1 ↦ elim (Bool-cases (str_eq "grep" p)) [
    | inl e ↦
        subst IsQuiet ((eq_iff "grep" p).0 e)
          (record { mcp = refl; bash = refl; last = refl; edit = refl; web = refl })
    | inr n2 ↦ elim (Bool-cases (str_eq "glob" p)) [
      | inl e ↦
          subst IsQuiet ((eq_iff "glob" p).0 e)
            (record { mcp = refl; bash = refl; last = refl; edit = refl; web = refl })
      | inr n3 ↦ elim (Bool-cases (str_eq "list" p)) [
        | inl e ↦
            subst IsQuiet ((eq_iff "list" p).0 e)
              (record { mcp = refl; bash = refl; last = refl; edit = refl; web = refl })
        | inr n4 ↦ elim (Bool-cases (str_eq "lsp" p)) [
          | inl e ↦
              subst IsQuiet ((eq_iff "lsp" p).0 e)
                (record { mcp = refl; bash = refl; last = refl; edit = refl; web = refl })
          | inr n5 ↦ ground arith
        ]
      ]
    ]
  ]
]
