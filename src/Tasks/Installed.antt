-- ===== src/Tasks/Installed.antt =====
-- What a KUDO operator task has done when it says that it is done: pkg/engine/task/task_kudo_operator.go.
use kudo.Prelude.{
  ◌≡◌, refl, sym, ap, ◌∙◌, String, true, Option, none, some, Result, ok, err, ok_injective,
  Bool-cases, inl, inr, ◌==◌, eq_iff,
}
use kudo.Engine.{Error}
use kudo.Api.Instance.{Instance}
use kudo.Health.Objects.{is_healthy, kudo_instance}
use kudo.Kube.Objects.{ApiError}
use kudo.Tasks.Tasker.{KudoOperatorTask}
use kudo.Tasks.Run.{Context, RunResult}
use kudo.Tasks.Apply.{is_resource_healthy}
use kudo.Tasks.KudoOperator.{
  Instances, answered, child_instance, apply_read, apply_instance, apply_child, done_if_healthy,
  after_child, run_kudo_operator,
}

-- The request that installs the child: a creation, if the child was not found, and a patch with its spec,
-- if it was. The created instance keeps the kind of the one that was sent.
pub data Accepted {Y J W : Type 0} (m : Instances Y J W) (child : Instance) (ns : String) (w w' : W)
    (returned : Instance) : Type 0 where
  created :
      (e : ApiError) (o : Instance)
      → m.get child.metadata.name ns w ≡ err e
      → e.not_found ≡ true
      → m.create child w ≡ ((none, o), w')
      → returned ≡ record o { metadata = record o.metadata { kind = child.metadata.kind } }
      → Accepted m child ns w w' returned
  patched :
      (old : Instance)
      → m.get child.metadata.name ns w ≡ ok old
      → m.patch child child.spec w ≡ ((none, returned), w')
      → Accepted m child ns w w' returned

-- A finished KUDO operator task: the child instance was created or patched, and the server returned it
-- with no plan scheduled.
pub record Installed {Y J W : Type 0} (m : Instances Y J W) (kt : KudoOperatorTask)
    (ctx : Context Y) (w w' : W) : Type 0 where
  pub child : Instance
  pub returned : Instance
  pub builds : child_instance m kt ctx w ≡ ok child
  pub request : Accepted m child ctx.meta.engine.instance_namespace w w' returned
  pub settled : returned.spec.plan_execution.plan_name ≡ ""

healthy-settled :
    (i : Instance)
    → is_resource_healthy (kudo_instance i) ≡ none
    → i.spec.plan_execution.plan_name ≡ ""
unfolding is_resource_healthy is_healthy
healthy-settled i h = elim (Bool-cases (i.spec.plan_execution.plan_name == "")) [
  | inl e ↦ (eq_iff i.spec.plan_execution.plan_name "").0 e
  | inr e ↦ absurd (cc (rw e at h))
]

done_if_healthy-none : (e : Option Error) → done_if_healthy e ≡ (true, none) → e ≡ none
done_if_healthy-none none h = refl
done_if_healthy-none (some x) h = cc

module _ {Y J W : Type 0} (m : Instances Y J W) where
  answered-ok :
      (a : (Option ApiError × Instance) × W) (i : Instance) (w' : W)
      → answered a ≡ (ok i, w')
      → a ≡ ((none, i), w')
  answered-ok ((none, j), w) i w' h = cc h
  answered-ok ((some e, j), w) i w' h = absurd (cc)

  apply_instance-Accepted :
      (i : Instance) (ns : String) (w w' : W) (j : Instance)
      → apply_instance m i ns w ≡ (ok j, w')
      → Accepted m i ns w w' j
  unfolding apply_instance apply_read
  apply_instance-Accepted i ns w w' j h = by_get (m.get i.metadata.name ns w) refl h
    where
      by_create :
          (e : ApiError)
          → m.get i.metadata.name ns w ≡ err e
          → e.not_found ≡ true
          → (a : (Option ApiError × Instance) × W) → m.create i w ≡ a
          → answered (
            (a.0.0, record a.0.1 { metadata = record a.0.1.metadata { kind = i.metadata.kind } }),
            a.1,
          )
            ≡ (ok j, w')
          → Accepted m i ns w w' j
      by_create e g n ((none, o), v) c k =
          created e o g n (c ∙ ap (λ (x : Result Error Instance × W). ((none, o), x.1)) k)
            (ok_injective _ _ (ap (λ (x : Result Error Instance × W). x.0) (sym k)))
      by_create e g n ((some x, o), v) c k = absurd (cc)

      by_get :
          (r : Result ApiError Instance)
          → m.get i.metadata.name ns w ≡ r
          → apply_read m i r w ≡ (ok j, w')
          → Accepted m i ns w w' j
      by_get (ok old) g k = patched old g (answered-ok (m.patch i i.spec w) j w' k)
      by_get (err e) g k = elim (Bool-cases e.not_found) [
        | inl n ↦ by_create e g n (m.create i w) refl (rw n at k)
        | inr n ↦ absurd (cc (rw n at k))
      ]

  -- If `Run` of a KUDO operator task is done and returns no error, then the child instance was built and read;
  -- it was created, if it was not found, or patched with its new spec, if it was; the server accepted
  -- this and returned an instance with no plan scheduled.
  pub run_kudo_operator-Installed :
      (kt : KudoOperatorTask) (ctx : Context Y) (w w' : W)
      → run_kudo_operator m kt ctx w ≡ ((true, none), w')
      → Installed m kt ctx w w'
  unfolding run_kudo_operator apply_child
  run_kudo_operator-Installed kt ctx w w' h = by_child (child_instance m kt ctx w) refl h
    where
      by_answer :
          (i : Instance)
          → child_instance m kt ctx w ≡ ok i
          → (a : Result Error Instance × W)
          → apply_instance m i ctx.meta.engine.instance_namespace w ≡ a
          → ◌≡◌ {A = RunResult × W} (after_child a.0, a.1) ((true, none), w')
          → Installed m kt ctx w w'
      by_answer i e (ok j, v) c k = record {
        child = i;
        returned = j;
        builds = e;
        request =
            apply_instance-Accepted i ctx.meta.engine.instance_namespace w w' j
              (c ∙ ap (λ (x : RunResult × W). (ok j, x.1)) k);
        settled = healthy-settled j (done_if_healthy-none _ (ap (λ (x : RunResult × W). x.0) k));
      }
      by_answer i e (err x, v) c k = absurd (cc)

      by_child :
          (r : Result Error Instance)
          → child_instance m kt ctx w ≡ r
          → (let a : Result Error Instance × W = elim r [
            | err e ↦ (err e, w)
            | ok i ↦ apply_instance m i ctx.meta.engine.instance_namespace w
          ] in
              ◌≡◌ {A = RunResult × W} (after_child a.0, a.1) ((true, none), w'))
          → Installed m kt ctx w w'
      by_child (ok i) e k =
          by_answer i e (apply_instance m i ctx.meta.engine.instance_namespace w) refl k
      by_child (err x) e k = absurd (cc)
