-- ===== src/Utils/Conditions.antt =====
-- internal/utils/conditions.go
use k8storagex.Base.{
  ℕ, ◌≡◌, String, Bool, true, false, ◌||◌, Option, none, some, List, [], ◌∷◌, arith, ◌==◌, ◌!=◌,
  string_eq, nat_eq, if◌then◌else◌,
}
use k8storagex.Api.Meta.{Condition}

unfoldable pub get_condition : List Condition → String → Option Condition
get_condition [] type = none
get_condition (c ∷ cs) type = if c.type == type then some c else get_condition cs type

abbrev differs : Condition → Condition → Bool
differs old new =
    old.status != new.status
    || old.observed_generation != new.observed_generation
    || old.reason != new.reason
    || old.message != new.message

-- `newCond` with its transition time, in the place of an old condition.
abbrev pub succeed : ℕ → Condition → Condition → Condition
succeed now old new = record new {
  last_transition_time = if old.status == new.status then old.last_transition_time else now;
}

-- The new list, and whether something changed.
unfoldable pub set_condition : ℕ → List Condition → Condition → List Condition × Bool
set_condition now [] new = (record new { last_transition_time = now } ∷ [], true)
set_condition now (c ∷ cs) new =
    if c.type == new.type
    then (succeed now c new ∷ cs, differs c new)
    else let (rest, changed) = set_condition now cs new in (c ∷ rest, changed)

-- What the list holds of the new condition's type afterwards.
abbrev pub successor : ℕ → Option Condition → Condition → Condition
successor now none new = record new { last_transition_time = now }
successor now (some old) new = succeed now old new

-- Setting a condition puts it in the place of the one of its type, with that one's transition time if
-- the status is the same, and leaves the conditions of other types as they are.
get_condition-set_condition :
    (now : ℕ) (cs : List Condition) (new : Condition) (type : String)
    → get_condition (set_condition now cs new).0 type ≡ (
        if new.type == type
        then some (successor now (get_condition cs new.type) new)
        else get_condition cs type)
unfolding get_condition set_condition
get_condition-set_condition now [] new type = ground arith
get_condition-set_condition now (c ∷ cs) new type =
    ground (arith, get_condition-set_condition now cs new type)

-- A condition that is set again reports no change.
set_condition_again :
    (now later : ℕ) (cs : List Condition) (new : Condition)
    → (set_condition later (set_condition now cs new).0 new).1 ≡ false
unfolding set_condition
set_condition_again now later [] new = ground arith
set_condition_again now later (c ∷ cs) new = ground (arith, set_condition_again now later cs new)
