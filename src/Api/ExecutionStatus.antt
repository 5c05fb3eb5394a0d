-- ===== src/Api/ExecutionStatus.antt =====
-- pkg/apis/kudo/v1beta1/instance_types.go: the type `ExecutionStatus`. It is a string in Go. The
-- program stores only its constants and the empty string, which is `unset` here.
use kudo.Prelude.{ℕ, ◌≡◌, String, Bool, true, false, arith, eqb}

pub data ExecutionStatus : Type 0 where
  unset in_progress pending complete error_status fatal_error never_run : ExecutionStatus

-- The number of a constant, by which two are compared.
abbrev pub rank : ExecutionStatus → ℕ
rank unset = 0
rank in_progress = 1
rank pending = 2
rank complete = 3
rank error_status = 4
rank fatal_error = 5
rank never_run = 6

-- The string of a constant.
abbrev pub status_text : ExecutionStatus → String
status_text unset = ""
status_text in_progress = "IN_PROGRESS"
status_text pending = "PENDING"
status_text complete = "COMPLETE"
status_text error_status = "ERROR"
status_text fatal_error = "FATAL_ERROR"
status_text never_run = "NEVER_RUN"

-- Go's `==` on two statuses.
abbrev pub status_eq : ExecutionStatus → ExecutionStatus → Bool
status_eq a b = eqb (rank a) (rank b)

abbrev pub is_never_run : ExecutionStatus → Bool
is_never_run never_run = true
is_never_run _ = false

abbrev pub is_fatal : ExecutionStatus → Bool
is_fatal fatal_error = true
is_fatal _ = false

abbrev pub is_terminal : ExecutionStatus → Bool
is_terminal complete = true
is_terminal fatal_error = true
is_terminal _ = false

abbrev pub is_finished : ExecutionStatus → Bool
is_finished complete = true
is_finished _ = false

abbrev pub is_running : ExecutionStatus → Bool
is_running in_progress = true
is_running pending = true
is_running error_status = true
is_running _ = false

pub status_eq_sound : (a b : ExecutionStatus) → status_eq a b ≡ true → a ≡ b
status_eq_sound a b h = grind arith
