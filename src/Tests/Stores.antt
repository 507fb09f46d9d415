-- ===== src/Tests/Stores.antt =====
-- A lock that three processes want, and approvals that are recorded.
use opencode_workflows.Prelude.{
  ◌≡◌, refl, ◌⊎◌, true, false, some, none, List, [], ◌∷◌, String, str_eq, length, ◌≤◌,
}
use opencode_workflows.Prelude.Dict
use opencode_workflows.Prelude.Dict.{Dict}
use opencode_workflows.Locks.{
  World, Event, acquire, reads_own, reads_stale, removes_own, removes_stale, die, absent, held, run,
  read_lock,
}
use opencode_workflows.Maps.{register_lane_effort, lane_effort_policy_for_child}
use opencode_workflows.Maps.Bounded.{register_lane_effort-IsRemembered}

abbrev unlocked : World
unlocked = record { file = absent; holders = []; dead = []; releasing = []; clearing = [] }

abbrev struggle : List Event
struggle =
    acquire true "a"
    ∷ acquire true "b"
    ∷ reads_stale false "b"
    ∷ die "a"
    ∷ acquire true "b"
    ∷ reads_stale true "c"
    ∷ reads_stale true "d"
    ∷ removes_stale "d"
    ∷ removes_stale "c"
    ∷ acquire true "c"
    ∷ reads_own true "c"
    ∷ removes_own "c"
    ∷ acquire true "d"
    ∷ []

after_struggle : (run unlocked struggle).file ≡ held "d"
unfolding run read_lock
after_struggle = refl

-- Two processes read the lock of one that died; one removes it and acquires, and the other then removes the
-- lock of the first, so that a third acquires it as well.
abbrev race : List Event
race =
    acquire true "a"
    ∷ die "a"
    ∷ reads_stale true "p"
    ∷ reads_stale true "q"
    ∷ removes_stale "q"
    ∷ acquire true "q"
    ∷ removes_stale "p"
    ∷ acquire true "r"
    ∷ []

two_holders :
    ((run unlocked race).holders ≡ "r" ∷ "q" ∷ "a" ∷ []) × ((run unlocked race).dead ≡ "a" ∷ [])
unfolding run read_lock
two_holders = (refl, refl)

abbrev pending : Dict String
pending = ("h1", "first") ∷ ("h2", "second") ∷ []

register_lane_effort-IsRemembered_example :
    let after = register_lane_effort pending "h3" "high" in
    (length after ≤ 1000)
    × ((lane_effort_policy_for_child after "h3").0 ≡ some "high")
    × ((k : String)
        → str_eq "h3" k ≡ false
        → (Dict.get after k ≡ Dict.get pending k) ⊎ (Dict.get after k ≡ none))
register_lane_effort-IsRemembered_example =
    register_lane_effort-IsRemembered pending "h3" "high" ((refl, tt), (tt, tt)) refl
