-- ===== src/Health/Readiness.antt =====
-- pkg/kubernetes/status/readiness.go: `IsReady` and `healthResources`. The lists of resources that
-- the API server returns are an argument.
use kudo.Prelude.{
  String, Bool, true, ◌&&◌, List, [], ◌∷◌, ◌++◌, some, Result, ok, err, ◌>>=◌, ◌==◌, if◌then◌else◌,
  concat,
}
use kudo.Api.Instance.{Instance}
use kudo.Engine.{Error, plain_error}
use kudo.Health.Objects.{Object, is_healthy}

-- `labels.Parse`, whose selector is its text, and `client.List` of the resources of a type by
-- namespace and selector.
pub record Lists (W : Type 0) : Type 0 where
  pub parse_labels : String → Result Error String
  pub list : String → String → String → W → Result Error (List Object)

abbrev pub joined : String → String → String
joined message msg = if message == "" then msg else concat (message ∷ ", " ∷ msg ∷ [])

-- The loop over the resources, with what it has found out so far.
unfoldable pub all_ready : Bool → String → List Object → Result Error (Bool × String)
unfolding is_healthy
all_ready ready message [] = ok (ready, message)
all_ready ready message (o ∷ rest) = is_healthy (some o) >>= λ (healthy, msg).
    all_ready (ready && healthy) (if healthy then message else joined message msg) rest

module _ {W : Type 0} (lists : Lists W) where
  abbrev pub pulled : String → Result Error (List Object) → Result Error (List Object)
  pulled type (ok xs) = ok xs
  pulled type (err e) =
      err (plain_error (concat ("unable to pull resources of type " ∷ type ∷ ": " ∷ e.text ∷ [])))

  abbrev listed : String → String → String → W → Result Error (List Object)
  listed type ns labels w = pulled type (lists.list type ns labels w)

  abbrev pub labels_of : Result Error String → Result Error String
  labels_of (ok l) = ok l
  labels_of (err e) =
      err
        (plain_error (concat ("unable to create list of labels to define health: " ∷ e.text ∷ [])))

  unfoldable pub health_resources : String → String → W → Result Error (List Object)
  health_resources name ns w = do
    labels ←
        labels_of
          (lists.parse_labels (concat ("kudo.dev/instance=" ∷ name ∷ ",heritage=kudo" ∷ [])))
    deployments ← listed "Deployment" ns labels w
    stateful_sets ← listed "StatefulSet" ns labels w
    replica_sets ← listed "ReplicaSet" ns labels w
    daemon_sets ← listed "DaemonSet" ns labels w
    pods ← listed "Pod" ns labels w
    ok (deployments ++ stateful_sets ++ replica_sets ++ daemon_sets ++ pods)

  unfoldable pub is_ready : Instance → W → Result Error (Bool × String)
  unfolding health_resources all_ready
  is_ready i w = health_resources i.metadata.name i.metadata.namespace w >>= λ resources.
      all_ready true "" resources
