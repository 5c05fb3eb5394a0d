-- ===== src/Api/PlanStatus.antt =====
-- pkg/apis/kudo/v1beta1/instance_types.go and instance_types_helpers.go: the status of a plan, its
-- setters, and the search for one of its phases. `time.Now()` is the argument `now`. A Go pointer
-- to the phase that the search finds is its name; a write through it is `update_phase`.
pub mod Find
use kudo.Prelude.{
  ℕ, ◌≡◌, refl, String, Bool, true, false, ◌&&◌, List, [], ◌∷◌, Option, none, some, ◌==◌,
  if◌then◌else◌,
}
use kudo.Api.ExecutionStatus.{ExecutionStatus, status_eq}
use kudo.Api.PhaseStatus.{PhaseStatus}

pub record PlanStatus : Type 0 where
  pub name : String
  pub status : ExecutionStatus
  pub message : String
  pub last_updated_timestamp : Option ℕ
  pub phases : List PhaseStatus
  pub uid : String

-- A status that is not new leaves the timestamp and the message.
unfoldable pub set : ℕ → ExecutionStatus → PlanStatus → PlanStatus
set now status s =
    if status_eq s.status status
    then s
    else record s { last_updated_timestamp = some now; status = status; message = "" }

unfoldable pub set_with_message : ℕ → ExecutionStatus → String → PlanStatus → PlanStatus
set_with_message now status message s =
    if status_eq s.status status && s.message == message
    then s
    else record s { last_updated_timestamp = some now; status = status; message = message }

unfoldable pub find_phase : String → List PhaseStatus → Option PhaseStatus
find_phase name [] = none
find_phase name (p ∷ rest) = if p.name == name then some p else find_phase name rest

unfoldable pub modify_phase :
    String → (PhaseStatus → PhaseStatus) → List PhaseStatus → List PhaseStatus
modify_phase name f [] = []
modify_phase name f (p ∷ rest) = if p.name == name then f p ∷ rest else p ∷ modify_phase name f rest

-- `GetPhaseStatus` and the method `Phase`.
abbrev pub get_phase_status : String → PlanStatus → Option PhaseStatus
get_phase_status name s = find_phase name s.phases

abbrev pub update_phase : String → (PhaseStatus → PhaseStatus) → PlanStatus → PlanStatus
update_phase name f s = record s { phases = modify_phase name f s.phases }
