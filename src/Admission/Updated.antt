-- ===== src/Admission/Updated.antt =====
-- What holds of an instance that `handleUpdate` changes.
use kudo.Prelude.{
  ◌≡◌, ◌≢◌, refl, subst, ◌⊎◌, inl, inr, String, true, ◌&&◌, Option, none, some, Result, ok, err,
  ◌==◌, eq_iff, Bool-cases,
}
use kudo.Libraries.{Laws}
use kudo.Api.ExecutionStatus.{unset, never_run}
use kudo.Api.Operator.{OperatorVersion}
use kudo.Api.Instance.{Instance, plan_exists}
use kudo.Admission.Parameters.{Denial}
use kudo.Admission.Decision.{admit_update}
use kudo.Admission.Handler.{
  patched, Server, Request, triggered_execution, with_execution, get_operator_version, respond,
  old_version, update_from, update_with, update_instance, handle_updated, handle_update,
}
use kudo.Admission.Plans.{admit_update-exists}
use kudo.Admission.Created.{patch-patched}

-- The plan is taken away, or a plan of the operator version is about to run for the first time.
abbrev pub Rescheduled : Server → OperatorVersion → Instance → Type 0
Rescheduled server ov i =
    ((i.spec.plan_execution.plan_name ≡ "")
      × (i.spec.plan_execution.uid ≡ "")
      × (i.spec.plan_execution.status ≡ unset))
    ⊎ ((plan_exists i.spec.plan_execution.plan_name ov ≡ true)
        × (i.spec.plan_execution.uid ≡ server.new_uuid)
        × (i.spec.plan_execution.status ≡ never_run))

module _ (server : Server) (laws : Laws server.packages) where
  triggered_execution-Rescheduled :
      (ov : OperatorVersion) (p : String) (j : Instance)
      → (p ≢ "" → plan_exists p ov ≡ true)
      → Rescheduled server ov (with_execution server (triggered_execution server p) j)
  triggered_execution-Rescheduled ov p j h = elim (Bool-cases (p == "")) [
    | inl e ↦ rw e (inl ((eq_iff p "").0 e, refl, refl))
    | inr e ↦ rw e (inr (h (λ f. cc ((eq_iff p "").1 f, e)), refl, refl))
  ]

  respond-Rescheduled :
      (old new : Instance) (ov old_ov : OperatorVersion) (i : Instance)
      (r : Result Denial (Option String × Instance))
      → admit_update server.packages server.parsers old new ov old_ov ≡ r
      → respond server r ≡ patched i
      → Rescheduled server ov i
  unfolding respond
  respond-Rescheduled old new ov old_ov i (err d) e h = cc h
  respond-Rescheduled old new ov old_ov i (ok (none, j)) e h = cc h
  respond-Rescheduled old new ov old_ov i (ok (some p, j)) e h =
      subst (Rescheduled server ov)
        (patch-patched server (with_execution server (triggered_execution server p) j) i
          (server.marshal_error _) h)
        (triggered_execution-Rescheduled ov p j (λ real.
          admit_update-exists server.packages laws server.parsers old new ov old_ov p j e real))

  -- The request has an object and an operator version of it, and the instance is rescheduled.
  abbrev pub IsRescheduled : Request → Instance → Type 0
  IsRescheduled req i =
      (new : Instance) × (ov : OperatorVersion) × (req.object ≡ ok new)
      × (get_operator_version server new ≡ ok ov)
      × Rescheduled server ov i

  -- If `handleUpdate` answers with a patch, then the operator version of the updated instance is
  -- found, and the patched instance either has no plan, no UID and no status, or has a plan of that
  -- operator version with a new UID and the status NEVER_RUN. (go-funk's `UniqString` keeps the
  -- elements of a list.)
  pub handle_update-Rescheduled :
      (req : Request) (i : Instance) → handle_update server req ≡ patched i → IsRescheduled req i
  unfolding handle_update
  handle_update-Rescheduled req i h = of_object req.object refl h
    where
      of_versions :
          (old new : Instance) (ov : OperatorVersion) (r : Result String OperatorVersion)
          → update_from server old new ov r ≡ patched i
          → Rescheduled server ov i
      of_versions old new ov (err e) k = cc k
      of_versions old new ov (ok old_ov) k = respond-Rescheduled old new ov old_ov i _ refl k

      of_version :
          (old new : Instance) (r : Result String OperatorVersion)
          → req.object ≡ ok new
          → get_operator_version server new ≡ r
          → update_with server old new r ≡ patched i
          → IsRescheduled req i
      of_version old new (err e) a b k = cc k
      of_version old new (ok ov) a b k =
          (new, ov, a, b, of_versions old new ov (old_version server old new ov) k)

      of_old :
          (new : Instance) (r : Result String Instance)
          → req.object ≡ ok new
          → update_instance server new r ≡ patched i
          → IsRescheduled req i
      of_old new (err e) a k = cc k
      of_old new (ok old) a k =
          elim (Bool-cases
            (server.spec_equal old.spec new.spec && server.status_equal old.status new.status)) [
              | inl f ↦ cc (rw f at k)
              | inr f ↦ of_version old new _ a refl (rw f at k)
            ]

      of_object :
          (r : Result String Instance)
          → req.object ≡ r
          → handle_updated server req r ≡ patched i
          → IsRescheduled req i
      of_object (err e) a k = cc k
      of_object (ok new) a k = of_old new req.old_object a k
