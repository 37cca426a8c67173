-- ===== src/Scheduler/Admin.antt =====
-- scheduler/scheduler.go around the loop: the options of New, Stop, and Entries. The order of a range
-- over the map does not show in Entries, which sorts the keys.
pub mod Sorted
use Prim.Native.String
use text.Mathlib.Text.{is_le}
use omkit_go.Prelude.{
  String, Bool, true, false, ◌≡◌, refl, ◌↔◌, ◌⊎◌, inl, inr, List, [], ◌∷◌, Map, lookup, Option,
  none, some, Among, if◌then◌else◌, Bool-cases, arith, eq_iff, ◌==◌,
}
use omkit_go.Prelude.Int.{ℤ, pos}
use omkit_go.Scheduler.{RegisteredEntry, State}

-- DefaultPollInterval, in nanoseconds.
abbrev pub default_poll_interval : ℤ
default_poll_interval = pos 10_000_000_000

-- The fields that the options set: the interval, and whether there is an enqueuer.
pub record Setup : Type 0 where
  pub poll_interval : ℤ
  pub immediate : Bool

pub data SchedulerOption : Type 0 where
  with_poll_interval : ℤ → SchedulerOption
  with_immediate_on_register : SchedulerOption

apply_option : SchedulerOption → Setup → Setup
apply_option (with_poll_interval d) s = record s { poll_interval = d }
apply_option with_immediate_on_register s = record s { immediate = true }

apply_options : List SchedulerOption → Setup → Setup
unfolding apply_option
apply_options [] s = s
apply_options (o ∷ os) s = apply_options os (apply_option o s)

unfoldable pub setup_of : List SchedulerOption → Setup
unfolding apply_options
setup_of os = apply_options os (record { poll_interval = default_poll_interval; immediate = false })

-- Stop, once the loop has ended: `shutdown` is the asynq scheduler's.
unfoldable pub stop : {S : Type 0} → (S → S) → State S → State S
stop shutdown st = record st { asynq_state = shutdown st.asynq_state }

-- sort.Strings
pub insert_sorted : String → List String → List String
insert_sorted k [] = k ∷ []
insert_sorted k (x ∷ xs) =
    let rest = insert_sorted k xs in if is_le (String.compare k x) then k ∷ x ∷ xs else x ∷ rest

pub sort_strings : List String → List String
unfolding insert_sorted
sort_strings [] = []
sort_strings (x ∷ xs) = insert_sorted x (sort_strings xs)

pub keys_of : Map RegisteredEntry → List String
keys_of [] = []
keys_of ((k, e) ∷ m) = k ∷ keys_of m

unfoldable pub entries : {S : Type 0} → State S → List String
unfolding sort_strings keys_of
entries st = sort_strings (keys_of st.entries)
