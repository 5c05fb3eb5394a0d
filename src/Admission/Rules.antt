-- ===== src/Admission/Rules.antt =====
-- What the rules of `admitUpdate` let through.
use kudo.Prelude.{
  ◌≡◌, ◌≢◌, refl, ap, ◌∙◌, ◌⊎◌, inl, inr, String, true, false, [], ◌∷◌, Option, none, some, ok,
  ◌==◌, arith, eq_iff, Option-cases, Bool-cases, ◌↔◌, ==_ne,
}
use kudo.Api.Operator.{OperatorVersion}
use kudo.Api.Instance.{
  select_plan, cleanup_plan_name, deploy_plan_name, update_plan_name, upgrade_plan_name,
}
use kudo.Admission.Decision.{Update, upgrade_plan, uninstall, forbidden, choose, decide}

-- A scheduled plan is neither replaced nor cancelled, and nothing is upgraded under it.
pub record Locked (u : Update) (p : Option String) : Type 0 where
  pub same_plan : u.new_plan ≡ u.old_plan
  pub no_upgrade : u.is_upgrade ≡ false
  pub trigger : (u.triggered ≡ none) ⊎ (u.triggered ≡ some u.old_plan)
  pub result : (p ≡ none) ⊎ (p ≡ some u.old_plan) ⊎ ((p ≡ some "") × (u.is_plan_terminal ≡ true))

forbidden-Locked :
    (u : Update)
    → (u.old_plan == "") ≡ false
    → forbidden u ≡ none
    → (u.new_plan ≡ u.old_plan)
      × (u.is_upgrade ≡ false)
      × ((u.triggered ≡ none) ⊎ (u.triggered ≡ some u.old_plan))
unfolding forbidden
forbidden-Locked u had allowed = elim (Option-cases u.triggered) [
  | inl e ↦ (ground (arith, e, eq_iff u.new_plan u.old_plan), ground (arith, e), inl e)
  | inr (t, e) ↦ (
    ground (arith, e, eq_iff u.new_plan u.old_plan, eq_iff t u.old_plan),
    ground (arith, e, eq_iff t u.old_plan),
    inr (e ∙ ap some (ground (arith, e, eq_iff t u.old_plan))),
  )
]

pub decide-choose :
    (u : Update) (ov : OperatorVersion) (p : Option String)
    → u.is_deleting ≡ false
    → decide u ov ≡ ok p
    → (forbidden u ≡ none) × (choose u ov ≡ ok p)
unfolding decide
decide-choose u ov p live h = elim (Option-cases (forbidden u)) [
  | inl e ↦ (e, rw (live, e) at h)
  | inr (d, e) ↦ cc (rw (live, e) at h)
]

pub decide-Locked :
    (u : Update) (ov : OperatorVersion) (p : Option String)
    → u.is_deleting ≡ false
    → u.old_plan ≢ ""
    → decide u ov ≡ ok p
    → Locked u p
unfolding choose
decide-Locked u ov p live had h =
    let (allowed, chosen) = decide-choose u ov p live h in
    let (same, up, trigger) = forbidden-Locked u (==_ne u.old_plan "" had) allowed in
    record {
      same_plan = same;
      no_upgrade = up;
      trigger = trigger;
      result = elim trigger [
        | inl t ↦ ground (arith, chosen, up, t, same, eq_iff u.old_plan "")
        | inr t ↦ ground (arith, chosen, up, t, same, eq_iff u.old_plan "")
      ];
    }

-- While the instance is being deleted nothing is triggered, and only 'cleanup' can be scheduled.
pub record Uninstalls (u : Update) (p : Option String) : Type 0 where
  pub nothing : p ≡ none
  pub no_upgrade : u.is_upgrade ≡ false
  pub no_update : u.triggered ≡ none
  pub only_cleanup : (u.new_plan ≡ "") ⊎ (u.new_plan ≡ cleanup_plan_name)
  pub keeps_cleanup : u.old_plan ≡ cleanup_plan_name → u.new_plan ≡ cleanup_plan_name

pub decide-Uninstalls :
    (u : Update) (ov : OperatorVersion) (p : Option String)
    → u.is_deleting ≡ true
    → decide u ov ≡ ok p
    → Uninstalls u p
unfolding decide uninstall
decide-Uninstalls u ov p gone h = record {
  nothing = ground arith;
  no_upgrade = ground arith;
  no_update = ground arith;
  only_cleanup = ground (arith, eq_iff u.new_plan "", eq_iff u.new_plan "cleanup");
  keeps_cleanup = λ e. ground (arith, eq_iff u.old_plan "cleanup", eq_iff u.new_plan u.old_plan);
}

-- An upgrade is of an instance with no plan, and triggers the first of three plans that there is.
pub record Upgrades (u : Update) (ov : OperatorVersion) (p : Option String) : Type 0 where
  pub no_plan : (u.old_plan ≡ "") × (u.new_plan ≡ "")
  pub trigger : (u.triggered ≡ none) ⊎ (u.triggered ≡ some deploy_plan_name)
  pub result :
      (p ≢ none)
      × (p ≡ select_plan (upgrade_plan_name ∷ update_plan_name ∷ deploy_plan_name ∷ []) ov)

pub decide-Upgrades :
    (u : Update) (ov : OperatorVersion) (p : Option String)
    → u.is_deleting ≡ false
    → u.is_upgrade ≡ true
    → decide u ov ≡ ok p
    → Upgrades u ov p
unfolding forbidden choose
decide-Upgrades u ov p live up h =
    let (allowed, chosen) = decide-choose u ov p live h in
    record {
      no_plan = (
        ground (arith, allowed, up, eq_iff u.old_plan ""),
        ground (arith, allowed, up, eq_iff u.new_plan ""),
      );
      trigger = triggered u.triggered refl allowed;
      result = selected _ refl (rw up at chosen);
    }
  where
    selected :
        (s : Option String)
        → select_plan (upgrade_plan_name ∷ update_plan_name ∷ deploy_plan_name ∷ []) ov ≡ s
        → upgrade_plan s ≡ ok p
        → (p ≢ none)
          × (p ≡ select_plan (upgrade_plan_name ∷ update_plan_name ∷ deploy_plan_name ∷ []) ov)
    selected none e c = cc c
    selected (some q) e c = (ground (arith, c), ground (arith, c, e))

    triggered :
        (t : Option String)
        → u.triggered ≡ t
        → forbidden u ≡ none
        → (u.triggered ≡ none) ⊎ (u.triggered ≡ some deploy_plan_name)
    triggered none e a = inl e
    triggered (some t) e a =
        inr (e ∙ ap some (ground (arith, a, e, up, eq_iff t "deploy", eq_iff u.old_plan "")))

-- In its normal life-cycle no user schedules 'cleanup'.
pub decide-no_cleanup :
    (u : Update) (ov : OperatorVersion) (p : Option String)
    → u.is_deleting ≡ false
    → decide u ov ≡ ok p
    → u.new_plan ≢ cleanup_plan_name
unfolding forbidden
decide-no_cleanup u ov p live h e =
    let (allowed, chosen) = decide-choose u ov p live h in
    ground (arith, allowed, eq_iff u.new_plan "cleanup")

-- The updates that the normal life-cycle lets pass. An upgrade may change parameters that trigger "deploy".
pub record IsAllowed (u : Update) : Type 0 where
  pub no_cleanup : u.new_plan ≢ cleanup_plan_name
  pub scheduled :
      u.old_plan ≢ ""
      → (u.new_plan ≡ u.old_plan)
        × (u.is_upgrade ≡ false)
        × ((u.triggered ≡ none) ⊎ (u.triggered ≡ some u.old_plan))
  pub upgrade :
      u.old_plan ≡ ""
      → u.is_upgrade ≡ true
      → (u.new_plan ≡ "") × ((u.triggered ≡ none) ⊎ (u.triggered ≡ some deploy_plan_name))
  pub update : u.old_plan ≡ "" → u.triggered ≢ none → u.new_plan ≡ ""

forbidden-IsAllowed : (u : Update) → forbidden u ≡ none → IsAllowed u
unfolding forbidden
forbidden-IsAllowed u h = record {
  no_cleanup = λ e. ground (arith, h, eq_iff u.new_plan "cleanup");
  scheduled = λ had. forbidden-Locked u (==_ne u.old_plan "" had) h;
  upgrade = λ e up. upgraded e up (Option-cases u.triggered);
  update = λ e t. updated e t (Option-cases u.triggered);
}
  where
    upgraded :
        u.old_plan ≡ ""
        → u.is_upgrade ≡ true
        → (u.triggered ≡ none) ⊎ ((t : String) × (u.triggered ≡ some t))
        → (u.new_plan ≡ "") × ((u.triggered ≡ none) ⊎ (u.triggered ≡ some deploy_plan_name))
    upgraded e up (inl t) =
        (ground (arith, h, up, t, eq_iff u.old_plan "", eq_iff u.new_plan ""), inl t)
    upgraded e up (inr (t, f)) = (
      ground (arith, h, up, f, eq_iff u.old_plan "", eq_iff u.new_plan ""),
      inr (f ∙ ap some (ground (arith, h, up, f, eq_iff t "deploy", eq_iff u.old_plan ""))),
    )

    updated :
        u.old_plan ≡ ""
        → u.triggered ≢ none
        → (u.triggered ≡ none) ⊎ ((t : String) × (u.triggered ≡ some t))
        → u.new_plan ≡ ""
    updated e t (inl f) = absurd (t f)
    updated e t (inr (s, f)) = ground (arith, h, f, eq_iff u.old_plan "", eq_iff u.new_plan "")

IsAllowed-forbidden : (u : Update) → IsAllowed u → forbidden u ≡ none
unfolding forbidden
IsAllowed-forbidden u h = elim (Bool-cases (u.old_plan == "")) [
  | inl e ↦ idle ((eq_iff u.old_plan "").0 e) (Option-cases u.triggered) (Bool-cases u.is_upgrade)
  | inr e ↦
      let (same, up, trigger) = h.scheduled (λ f. cc (e, (eq_iff u.old_plan "").1 f)) in
      elim trigger [
        | inl t ↦ ground (
          arith,
          e,
          same,
          up,
          t,
          h.no_cleanup,
          eq_iff u.new_plan "cleanup",
          eq_iff u.new_plan "",
          eq_iff u.old_plan "",
          eq_iff u.new_plan u.old_plan,
        )
        | inr t ↦ ground (
          arith,
          e,
          same,
          up,
          t,
          h.no_cleanup,
          eq_iff u.new_plan "cleanup",
          eq_iff u.new_plan "",
          eq_iff u.old_plan "",
          eq_iff u.new_plan u.old_plan,
          eq_iff u.old_plan u.old_plan,
        )
      ]
]
  where
    idle :
        u.old_plan ≡ ""
        → (u.triggered ≡ none) ⊎ ((t : String) × (u.triggered ≡ some t))
        → (u.is_upgrade ≡ true) ⊎ (u.is_upgrade ≡ false)
        → forbidden u ≡ none
    idle e (inl t) (inl up) = ground (
      arith,
      e,
      t,
      up,
      (h.upgrade e up).0,
      h.no_cleanup,
      eq_iff u.new_plan "cleanup",
      eq_iff u.new_plan "",
      eq_iff u.old_plan "",
    )
    idle e (inl t) (inr up) =
        ground (arith, e, t, up, h.no_cleanup, eq_iff u.new_plan "cleanup", eq_iff u.old_plan "")
    idle e (inr (t, f)) (inl up) = elim (h.upgrade e up).1 [
      | inl g ↦ cc (f, g)
      | inr g ↦ ground (
        arith,
        e,
        f,
        g,
        up,
        (h.upgrade e up).0,
        h.no_cleanup,
        eq_iff u.new_plan "cleanup",
        eq_iff u.new_plan "",
        eq_iff u.old_plan "",
        eq_iff t "deploy",
      )
    ]
    idle e (inr (t, f)) (inr up) =
        let same = h.update e (λ g. cc (f, g)) in
        ground (
          arith,
          e,
          f,
          up,
          same,
          h.no_cleanup,
          eq_iff u.new_plan "cleanup",
          eq_iff u.new_plan "",
          eq_iff u.old_plan "",
        )

-- In the normal life-cycle an update passes exactly in these cases. It does not name 'cleanup'. If a plan is
-- scheduled, the update keeps that plan, is no upgrade, and its parameters trigger no plan or the same
-- one. If none is scheduled, an upgrade names no plan, and its parameters trigger no plan or 'deploy'; and
-- an update whose parameters trigger a plan names none.
pub forbidden-IsAllowed_iff : (u : Update) → (forbidden u ≡ none) ↔ IsAllowed u
forbidden-IsAllowed_iff u = (forbidden-IsAllowed u, IsAllowed-forbidden u)
