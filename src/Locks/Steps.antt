-- ===== src/Locks/Steps.antt =====
-- The steps of the processes that want the lock of a run of workflow-kernel/run-store-locks.js, one by
-- one.
use opencode_workflows.Prelude.{
  ◌≡◌, refl, sym, ap, ◌∙◌, ◌⊎◌, String, Bool, true, false, List, [], ◌∷◌, str_eq, eq_iff, any, All,
  arith, Bool-cases, inl, inr,
}
use opencode_workflows.Locks.{
  LockFile, absent, malformed, held, World, reads_own, reads_stale, removes_own, removes_stale, die,
  is_alive, without, act, acquire_workflow_lock, owns_lock, is_clearable, read_lock, note_acquired,
}

-- Every process of the list that is alive is the one that the file names.
abbrev pub AreNamed : World → List String → Type 0
AreNamed w processes = All (λ process. is_alive w process ≡ true → w.file ≡ held process) processes

-- The file names no live process.
abbrev pub IsAbandoned : World → Type 0
IsAbandoned w = (owner : String) → w.file ≡ held owner → is_alive w owner ≡ false

-- A live process that acquired the lock and has not released it is the one that the file names, and so is
-- one that is about to remove its own lock; and where a process is about to clear the lock, the file names
-- no live one.
pub record IsExclusive (w : World) : Type 0 where
  pub holders : AreNamed w w.holders
  pub releasing : AreNamed w w.releasing
  pub clearing : (w.clearing ≡ []) ⊎ IsAbandoned w

abbrev owner_of : String → LockFile → String
owner_of d (held owner) = owner
owner_of d file = d

held-injective : (p q : String) → held p ≡ held q → p ≡ q
held-injective p q h = ap (owner_of p) h

AllHolders :
    {P Q : String → Type 0} (xs : List String) → ((x : String) → P x → Q x) → All P xs → All Q xs
AllHolders [] f h = tt
AllHolders (x ∷ xs) f h = (f x h.0, AllHolders xs f h.1)

All-without :
    {P Q : String → Type 0} (process : String) (xs : List String)
    → ((x : String) → str_eq x process ≡ false → P x → Q x)
    → All P xs
    → All Q (without process xs)
All-without process [] f h = tt
All-without process (x ∷ xs) f h = elim (Bool-cases (str_eq x process)) [
  | inl same ↦ rw same (All-without process xs f h.1)
  | inr apart ↦ rw apart (f x apart h.0, All-without process xs f h.1)
]

named-of :
    (w : World) (process : String) (xs : List String)
    → any (str_eq process) xs ≡ true
    → is_alive w process ≡ true
    → AreNamed w xs
    → w.file ≡ held process
named-of w process [] among alive h = cc
named-of w process (x ∷ xs) among alive h = elim (Bool-cases (str_eq process x)) [
  | inl same ↦
      let at : process ≡ x = (eq_iff process x).0 same in
      h.0 (ap (is_alive w) (sym at) ∙ alive) ∙ ap held (sym at)
  | inr apart ↦
      let rest : any (str_eq process) xs ≡ true = ground (arith, apart, among) in
      named-of w process xs rest alive h.1
]

-- Where the file names one live process, the others of a list that are alive are none.
other_dead :
    {A : Type 0} (w : World) (process x : String)
    → w.file ≡ held process
    → str_eq x process ≡ false
    → w.file ≡ held x
    → A
other_dead w process x at apart named =
    absurd (ground (arith, apart, eq_iff x process, held-injective x process (sym named ∙ at)))

-- A process acquires the lock only where no file is, and then no live process holds it.
pub acquired-IsExclusive :
    (readable : Bool) (process : String) (w : World) (file : LockFile)
    → w.file ≡ file
    → w.clearing ≡ []
    → IsExclusive w
    → IsExclusive
        (note_acquired process (acquire_workflow_lock readable (is_alive w) process file) w)
unfolding acquire_workflow_lock read_lock
acquired-IsExclusive readable process w absent e quiet h = record {
  holders =
      (λ alive. refl, AllHolders w.holders (λ x named alive. nobody x (named alive)) h.holders);
  releasing = AllHolders w.releasing (λ x named alive. nobody x (named alive)) h.releasing;
  clearing = inl quiet;
}
  where
    nobody : {A : Type 0} (x : String) → w.file ≡ held x → A
    nobody x named = let bad : absent ≡ held x = sym e ∙ named in cc
acquired-IsExclusive true process w malformed e quiet h = record {
  holders = AllHolders w.holders (λ x named alive. sym e ∙ named alive) h.holders;
  releasing = AllHolders w.releasing (λ x named alive. sym e ∙ named alive) h.releasing;
  clearing = inl quiet;
}
acquired-IsExclusive false process w malformed e quiet h = record {
  holders = AllHolders w.holders (λ x named alive. sym e ∙ named alive) h.holders;
  releasing = AllHolders w.releasing (λ x named alive. sym e ∙ named alive) h.releasing;
  clearing = inl quiet;
}
acquired-IsExclusive true process w (held owner) e quiet h = record {
  holders = AllHolders w.holders (λ x named alive. sym e ∙ named alive) h.holders;
  releasing = AllHolders w.releasing (λ x named alive. sym e ∙ named alive) h.releasing;
  clearing = inl quiet;
}
acquired-IsExclusive false process w (held owner) e quiet h = record {
  holders = AllHolders w.holders (λ x named alive. sym e ∙ named alive) h.holders;
  releasing = AllHolders w.releasing (λ x named alive. sym e ∙ named alive) h.releasing;
  clearing = inl quiet;
}

owns_lock-held :
    (readable : Bool) (process : String) (file : LockFile)
    → owns_lock readable process file ≡ true
    → file ≡ held process
unfolding owns_lock
owns_lock-held readable process absent h = cc
owns_lock-held readable process malformed h = cc
owns_lock-held false process (held owner) h = cc
owns_lock-held true process (held owner) h = ap held ((eq_iff owner process).0 h)

clearable_dead :
    (readable : Bool) (alive : String → Bool) (file : LockFile) (owner : String)
    → is_clearable readable alive file ≡ true
    → file ≡ held owner
    → alive owner ≡ false
unfolding is_clearable read_lock
clearable_dead readable alive absent owner h e = cc
clearable_dead readable alive malformed owner h e = cc
clearable_dead true alive (held other) owner h e =
    let same : alive other ≡ alive owner = ap alive (held-injective other owner e) in
    ground (arith, h, same)
clearable_dead false alive (held other) owner h e = absurd (ground (arith, h))

pub reads_own-IsExclusive :
    (w : World) (readable : Bool) (process : String)
    → IsExclusive w
    → IsExclusive (act w (reads_own readable process))
unfolding act
reads_own-IsExclusive w readable process h = elim (Bool-cases (owns_lock readable process w.file)) [
  | inl owns ↦ rw owns (record {
    holders = h.holders;
    releasing = (λ alive. owns_lock-held readable process w.file owns, h.releasing);
    clearing = h.clearing;
  })
  | inr other ↦ rw other (record {
    holders = All-without process w.holders (λ x apart named. named) h.holders;
    releasing = h.releasing;
    clearing = h.clearing;
  })
]

pub removes_own-IsExclusive :
    (w : World) (process : String)
    → is_alive w process ≡ true
    → IsExclusive w
    → IsExclusive (act w (removes_own process))
unfolding act
removes_own-IsExclusive w process alive h = elim (Bool-cases (any (str_eq process) w.releasing)) [
  | inl among ↦
      let at = named-of w process w.releasing among alive h.releasing in
      rw among (record {
        holders =
            All-without process w.holders
              (λ x apart named lives. other_dead w process x at apart (named lives)) h.holders;
        releasing =
            All-without process w.releasing
              (λ x apart named lives. other_dead w process x at apart (named lives)) h.releasing;
        clearing = inr λ owner e. cc;
      })
  | inr other ↦ rw other h
]

pub reads_stale-IsExclusive :
    (w : World) (readable : Bool) (process : String)
    → IsExclusive w
    → IsExclusive (act w (reads_stale readable process))
unfolding act
reads_stale-IsExclusive w readable process h =
    elim (Bool-cases (is_clearable readable (is_alive w) w.file)) [
      | inl clears ↦ rw clears (record {
        holders = h.holders;
        releasing = h.releasing;
        clearing = inr (λ owner e. clearable_dead readable (is_alive w) w.file owner clears e);
      })
      | inr other ↦ rw other h
    ]

pub removes_stale-IsExclusive :
    (w : World) (process : String) → IsExclusive w → IsExclusive (act w (removes_stale process))
unfolding act
removes_stale-IsExclusive w process h = elim (Bool-cases (any (str_eq process) w.clearing)) [
  | inr other ↦ rw other h
  | inl among ↦ elim h.clearing [
    | inl nobody ↦ let bad : false ≡ true = ap (any (str_eq process)) (sym nobody) ∙ among in cc
    | inr abandoned ↦ rw among (record {
      holders =
          AllHolders w.holders (λ x named lives. gone abandoned x lives (named lives)) h.holders;
      releasing =
          AllHolders w.releasing (λ x named lives. gone abandoned x lives (named lives))
            h.releasing;
      clearing = inr λ owner e. cc;
    })
  ]
]
  where
    gone : {A : Type 0} → IsAbandoned w → (x : String) → is_alive w x ≡ true → w.file ≡ held x → A
    gone abandoned x lives named = let bad : true ≡ false = sym lives ∙ abandoned x named in cc

pub die-IsExclusive :
    (w : World) (process : String) → IsExclusive w → IsExclusive (act w (die process))
unfolding act
die-IsExclusive w process h = record {
  holders = AllHolders w.holders (λ x named lives. named (before x lives)) h.holders;
  releasing =
      All-without process w.releasing (λ x apart named lives. named (before x lives)) h.releasing;
  clearing = elim h.clearing [
    | inl nobody ↦ inl (ap (without process) nobody)
    | inr abandoned ↦ inr λ owner e. let d = abandoned owner e in ground (arith, d)
  ];
}
  where
    before : (x : String) → is_alive (act w (die process)) x ≡ true → is_alive w x ≡ true
    before x lives = ground (arith, lives)
