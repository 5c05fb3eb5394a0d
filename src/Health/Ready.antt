-- ===== src/Health/Ready.antt =====
-- An instance is ready if all its resources are healthy, and only then.
use kudo.Prelude.{
  ◌≡◌, ◌≢◌, ◌↔◌, refl, String, Bool, true, false, ◌&&◌, List, [], ◌∷◌, some, ok, err, Result,
  ok_injective, subst, sym, concat, ◌++◌, >>=-eq-ok, if◌then◌else◌, All, arith,
}
use kudo.Api.Instance.{Instance}
use kudo.Engine.{Error}
use kudo.Health.Objects.{Object, is_healthy}
use kudo.Health.Readiness.{Lists, pulled, labels_of, joined, all_ready, health_resources, is_ready}

abbrev pub Healthy : Object → Type 0
Healthy o = (msg : String) × (is_healthy (some o) ≡ ok (true, msg))

and_false : (b : Bool) → (b && false) ≢ true
and_false true e = cc e
and_false false e = cc e

-- The answer is yes exactly if it was so far and the rest is healthy.
all_ready_iff :
    (xs : List Object) (ready : Bool) (message : String) (answer : Bool) (m : String)
    → all_ready ready message xs ≡ ok (answer, m)
    → (answer ≡ true) ↔ ((ready ≡ true) × All Healthy xs)
unfolding all_ready
all_ready_iff [] ready message answer m h =
    (λ e. (ground (arith, h, e), tt), λ e. ground (arith, h, e.0))
all_ready_iff (o ∷ rest) ready message answer m h =
    let (health, a, b) = >>=-eq-ok (is_healthy (some o)) _ h in
    step health a (
      all_ready_iff rest (ready && health.0) (if health.0 then message else joined message health.1)
        answer m b)
  where
    step :
        (health : Bool × String)
        → is_healthy (some o) ≡ ok health
        → (answer ≡ true) ↔ (((ready && health.0) ≡ true) × All Healthy rest)
        → (answer ≡ true) ↔ ((ready ≡ true) × All Healthy (o ∷ rest))
    step (true, msg) a (f, g) =
        (λ e. (ground (arith, f e), ((msg, a), (f e).1)), λ e. g (ground (arith, e.0), e.1.1))
    step (false, msg) a (f, g) = (λ e. absurd (and_false ready (f e).0), λ e. cc (a, e.1.0.1))

-- The labels of an instance's resources, and what the server lists of each type by them.
pub record Selected {W : Type 0} (lists : Lists W) (name ns : String) (w : W) : Type 0 where
  pub labels : String
  pub deployments : List Object
  pub stateful_sets : List Object
  pub replica_sets : List Object
  pub daemon_sets : List Object
  pub pods : List Object
  pub by_name :
      lists.parse_labels (concat ("kudo.dev/instance=" ∷ name ∷ ",heritage=kudo" ∷ [])) ≡ ok labels
  pub all_deployments : lists.list "Deployment" ns labels w ≡ ok deployments
  pub all_stateful_sets : lists.list "StatefulSet" ns labels w ≡ ok stateful_sets
  pub all_replica_sets : lists.list "ReplicaSet" ns labels w ≡ ok replica_sets
  pub all_daemon_sets : lists.list "DaemonSet" ns labels w ≡ ok daemon_sets
  pub all_pods : lists.list "Pod" ns labels w ≡ ok pods

-- Every resource that was listed is healthy.
pub record AllHealthy {W : Type 0} {lists : Lists W} {name ns : String} {w : W}
    (s : Selected lists name ns w) : Type 0 where
  pub deployments : All Healthy s.deployments
  pub stateful_sets : All Healthy s.stateful_sets
  pub replica_sets : All Healthy s.replica_sets
  pub daemon_sets : All Healthy s.daemon_sets
  pub pods : All Healthy s.pods

All-split : (xs ys : List Object) → All Healthy (xs ++ ys) → All Healthy xs × All Healthy ys
All-split [] ys h = (tt, h)
All-split (x ∷ xs) ys (p, h) = let (a, b) = All-split xs ys h in ((p, a), b)

All-join : (xs ys : List Object) → All Healthy xs → All Healthy ys → All Healthy (xs ++ ys)
All-join [] ys h k = k
All-join (x ∷ xs) ys (p, h) k = (p, All-join xs ys h k)

split_five :
    (ds ss rs ms ps : List Object)
    → All Healthy (ds ++ ss ++ rs ++ ms ++ ps)
    → All Healthy ds × All Healthy ss × All Healthy rs × All Healthy ms × All Healthy ps
split_five ds ss rs ms ps h =
    let (h4, k5) = All-split (ds ++ ss ++ rs ++ ms) ps h in
    let (h3, k4) = All-split (ds ++ ss ++ rs) ms h4 in
    let (h2, k3) = All-split (ds ++ ss) rs h3 in
    let (k1, k2) = All-split ds ss h2 in (k1, k2, k3, k4, k5)

pulled-ok :
    {W : Type 0} (lists : Lists W) (type : String) (r : Result Error (List Object))
    (xs : List Object)
    → pulled lists type r ≡ ok xs
    → r ≡ ok xs
pulled-ok lists type (ok ys) xs h = h
pulled-ok lists type (err e) xs h = absurd (cc)

labels_of-ok :
    {W : Type 0} (lists : Lists W) (r : Result Error String) (l : String)
    → labels_of lists r ≡ ok l
    → r ≡ ok l
labels_of-ok lists (ok l) m h = h
labels_of-ok lists (err e) m h = absurd (cc)

health_resources-Selected :
    {W : Type 0} (lists : Lists W) (name ns : String) (w : W) (resources : List Object)
    → health_resources lists name ns w ≡ ok resources
    → (s : Selected lists name ns w) × (All Healthy resources ↔ AllHealthy s)
unfolding health_resources
health_resources-Selected lists name ns w resources h =
    let (l, a, h1) = >>=-eq-ok (labels_of lists _) _ h in
    let (ds, b, h2) = >>=-eq-ok (pulled lists "Deployment" _) _ h1 in
    let (ss, c, h3) = >>=-eq-ok (pulled lists "StatefulSet" _) _ h2 in
    let (rs, d, h4) = >>=-eq-ok (pulled lists "ReplicaSet" _) _ h3 in
    let (ms, e, h5) = >>=-eq-ok (pulled lists "DaemonSet" _) _ h4 in
    let (ps, f, h6) = >>=-eq-ok (pulled lists "Pod" _) _ h5 in
    let all : (ds ++ ss ++ rs ++ ms ++ ps) ≡ resources = ok_injective _ _ h6 in
    (
      record {
        labels = l;
        deployments = ds;
        stateful_sets = ss;
        replica_sets = rs;
        daemon_sets = ms;
        pods = ps;
        by_name = labels_of-ok lists _ _ a;
        all_deployments = pulled-ok lists _ _ _ b;
        all_stateful_sets = pulled-ok lists _ _ _ c;
        all_replica_sets = pulled-ok lists _ _ _ d;
        all_daemon_sets = pulled-ok lists _ _ _ e;
        all_pods = pulled-ok lists _ _ _ f;
      },
      (
        λ k.
            let (k1, k2, k3, k4, k5) =
              split_five ds ss rs ms ps (subst (All Healthy) (sym all) k) in
            record {
              deployments = k1;
              stateful_sets = k2;
              replica_sets = k3;
              daemon_sets = k4;
              pods = k5;
            },
        λ k. subst (All Healthy) all (
            All-join (ds ++ ss ++ rs ++ ms) ps
              (All-join (ds ++ ss ++ rs) ms
                (All-join (ds ++ ss) rs (All-join ds ss k.deployments k.stateful_sets)
                  k.replica_sets)
                k.daemon_sets)
              k.pods),
      ),
    )

-- If `IsReady` answers, then the labels with the name of the instance were parsed, the Deployments,
-- StatefulSets, ReplicaSets, DaemonSets and Pods with these labels in its namespace were listed, and the
-- answer is that the instance is ready exactly if each of them is healthy.
pub is_ready-Healthy_iff :
    {W : Type 0} (lists : Lists W) (i : Instance) (w : W) (answer : Bool) (m : String)
    → is_ready lists i w ≡ ok (answer, m)
    → (s : Selected lists i.metadata.name i.metadata.namespace w) × ((answer ≡ true) ↔ AllHealthy s)
unfolding is_ready
is_ready-Healthy_iff lists i w answer m h =
    let (resources, a, b) =
      >>=-eq-ok (health_resources lists i.metadata.name i.metadata.namespace w)
        (λ xs. all_ready true "" xs) h in
    let (f, g) = all_ready_iff resources true "" answer m b in
    let (s, (into, back)) =
      health_resources-Selected lists i.metadata.name i.metadata.namespace w resources a in
    (s, (λ e. into (f e).1, λ all. g (refl, back all)))
