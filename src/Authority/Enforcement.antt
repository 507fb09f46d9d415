-- ===== src/Authority/Enforcement.antt =====
-- What the rules that permission_rules_for_authority makes decide for each kind of permission, for
-- workflow-kernel/authority-policy.js.
use opencode_workflows.Prelude.{
  ◌≡◌, refl, ◌∙◌, String, true, false, not, ◌&&◌, ◌||◌, Option, none, some, List, [], ◌∷◌, ◌++◌,
  str_eq, arith, any, if◌then◌else◌,
}
use opencode_workflows.Authority.Pattern.{Text, unique, Policy}
use opencode_workflows.Authority.Narrowing.{glob, permits, glob-star, any-unique_from}
use opencode_workflows.Authority.Run.{Authority, or_else, is_empty}
use opencode_workflows.Authority.Rules.{
  Action, allow, deny, Rule, head_rules, secret_rules, edits, edit_rules, policy_rules,
  network_rules, tail_rules, rules_with, default_secret_globs, allow_if,
}
use opencode_workflows.Authority.Decisions.{
  decide, ignores, decide-ignores, decide-policy_rules, decide-other_policy, reads,
  decide-secret_rules, decided_later, decided_here, reads-IsQuiet,
}

module _ (a : Authority) (sp mp : Policy) (extra : List Text) (t : Text) where
  abbrev after_network : List Rule
  after_network = policy_rules "mcp" mp ++ tail_rules

  abbrev after_bash : List Rule
  after_bash = network_rules a ++ after_network

  abbrev after_edit : List Rule
  after_edit = policy_rules "bash" sp ++ after_bash

  abbrev secrets : List Text
  secrets = unique (default_secret_globs ++ extra)

  after_network-none :
      (p : String)
      → (str_eq "mcp" "*" || str_eq "mcp" p) ≡ false
      → ignores p tail_rules ≡ true
      → decide after_network p t ≡ none
  after_network-none p h k =
      decided_here (policy_rules "mcp" mp) tail_rules p t (decide-ignores tail_rules p t k)
        (decide-other_policy p "mcp" mp t h)

  after_bash-none :
      (p : String)
      → (str_eq "mcp" "*" || str_eq "mcp" p) ≡ false
      → ignores p tail_rules ≡ true
      → ignores p (network_rules a) ≡ true
      → decide after_bash p t ≡ none
  after_bash-none p h k n =
      decided_here (network_rules a) after_network p t (after_network-none p h k)
        (decide-ignores (network_rules a) p t n)

  after_edit-none :
      (p : String)
      → (str_eq "mcp" "*" || str_eq "mcp" p) ≡ false
      → (str_eq "bash" "*" || str_eq "bash" p) ≡ false
      → ignores p tail_rules ≡ true
      → ignores p (network_rules a) ≡ true
      → decide after_edit p t ≡ none
  after_edit-none p h b k n =
      decided_here (policy_rules "bash" sp) after_bash p t (after_bash-none p h k n)
        (decide-other_policy p "bash" sp t b)

  edit_rules-decide : decide (edit_rules a) "edit" t ≡ some (allow_if (edits a))
  unfolding decide
  edit_rules-decide = rw (glob-star t)

  pub decide-edit : decide (rules_with a sp mp extra) "edit" t ≡ some (allow_if (edits a))
  unfolding rules_with
  decide-edit = decided_later head_rules _ "edit" t (
      decided_later (secret_rules secrets) _ "edit" t (
        decided_here (edit_rules a) after_edit "edit" t (after_edit-none "edit" refl refl refl refl)
          edit_rules-decide))

  head-bash : decide head_rules "bash" t ≡ some deny
  unfolding decide
  head-bash = rw (glob-star t)

  from_bash :
      {o : Option Action}
      → decide after_edit "bash" t ≡ o
      → decide (rules_with a sp mp extra) "bash" t ≡ or_else o (some deny)
  unfolding rules_with
  from_bash {o = some x} h = decided_later head_rules _ "bash" t (
      decided_later (secret_rules secrets) _ "bash" t
        (decided_later (edit_rules a) after_edit "bash" t h))
  from_bash {o = none} h =
      decided_here head_rules _ "bash" t
        (decided_here (secret_rules secrets) _ "bash" t
          (decided_here (edit_rules a) after_edit "bash" t h
            (decide-ignores (edit_rules a) "bash" t refl))
          (decide-secret_rules "bash" secrets t))
        head-bash

  pub decide-bash : decide (rules_with a sp mp extra) "bash" t ≡ some (allow_if (permits sp t))
  unfolding permits
  decide-bash =
      from_bash (
        decided_here (policy_rules "bash" sp) after_bash "bash" t
          (after_bash-none "bash" refl refl refl) (decide-policy_rules "bash" sp.allow sp.deny t))
      ∙ verdict sp.allow
    where
      verdict :
          (oks : List Text)
          → or_else
              (if any (λ p. glob p t) sp.deny
                then some deny
                else if any (λ p. glob p t) oks
                then some allow
                else if is_empty oks
                then some deny
                else none)
              (some deny)
            ≡ some (allow_if (any (λ p. glob p t) oks && not (any (λ p. glob p t) sp.deny)))
      verdict [] = ground arith
      verdict (o ∷ oks) = ground arith

  pub decide-secret :
      (p : String)
      → reads p ≡ true
      → any (λ g. glob g t) (default_secret_globs ++ extra) ≡ true
      → decide (rules_with a sp mp extra) p t ≡ some deny
  unfolding rules_with unique
  decide-secret p r h =
      let q = reads-IsQuiet p r in
      decided_later head_rules _ p t (
        decided_here (secret_rules secrets) _ p t
          (decided_here (edit_rules a) after_edit p t
            (after_edit-none p q.mcp q.bash q.last (ground (arith, q.web)))
            (decide-ignores (edit_rules a) p t (ground (arith, q.edit))))
          (decide-secret_rules p secrets t
            ∙ rw (r, any-unique_from (λ g. glob g t) [] (default_secret_globs ++ extra) h)))
