-- ===== src/Kudoctl/Installed.antt =====
-- What an installation by pkg/kudoctl/resources/install adds to the cluster's operator versions.
use mathlib.Core.List.{Permᴰ}
use kudo.Prelude.{
  ◌≡◌, refl, sym, ap, ◌∙◌, subst, String, List, [], ◌∷◌, ◌++◌, Result, ok, ◌⊎◌, inl, inr, All,
  All-map,
}
use kudo.Kube.Act.{Act, pure, lift, failing-ok, >>=-ok, ◌>>=◌}
use kudo.Libraries.{Packages, Laws}
use kudo.Api.Operator.{OperatorVersion}
use kudo.Kudoctl.Convert.{Operator}
use kudo.Kudoctl.Client.{Clientset}
use kudo.Kudoctl.Install.{
  failed_to, Dependency, ensure_operator, installed, unless_installed, install_dependency,
  install_dependencies, operator_and_operator_version,
}
use kudo.Kudoctl.Created.{
  ServerLaws, HasVersion, Grows, HasVersion-Grows, HasVersion-added, Grows-same, Grows-trans,
  ensure_operator-versions, listed-versions, unless_installed-versions,
}

module _ {W : Type 0} (funk : Packages) (funk_laws : Laws funk) (c : Clientset W)
    (s : ServerLaws c) where
  -- The operator, the list of its versions, and then the version.
  staged-versions :
      (what : String) (o : Operator) (ov : OperatorVersion) (before : Act String W (Unit {0}))
      (w w' : W) {u : Unit {0}}
      → o.namespace ≡ ov.namespace
      → (ensure_operator funk c o >>= λ _. (λ w1. lift (installed funk c what o w1) w1) >>= λ found.
            unless_installed funk c ov before found)
          w
        ≡ (ok u, w')
      → (w1 : W) × (s.versions ov.namespace w1 ≡ s.versions ov.namespace w)
        × ((HasVersion (s.versions ov.namespace w1) o.name ov.version × (w1 ≡ w'))
            ⊎ ((w2 : W) × (before w1 ≡ (ok tt, w2))
                × Permᴰ (s.versions ov.namespace w') (ov ∷ s.versions ov.namespace w2)))
  staged-versions what o ov before w w' same h =
      let (done, w1, e, f) = >>=-ok (ensure_operator funk c o) _ w w' h in
      let (found, w2, g, k) =
        >>=-ok (λ v. lift (installed funk c what o v) v) (unless_installed funk c ov before) w1 w'
          f in
      let ((items, all, p), still) =
        listed-versions funk funk_laws c s ov.namespace o what w1 w2 found same g in
      (
        w1,
        ap (λ (r : Result String (Unit {0}) × W). s.versions ov.namespace r.1) (sym e)
            ∙ ensure_operator-versions funk funk_laws c s ov.namespace o w,
        unless_installed-versions funk funk_laws c s ov o.name before w1 w' items p (
            ap (λ l. unless_installed funk c ov before l w1) (sym all)
            ∙ ap (unless_installed funk c ov before found) still
            ∙ k),
      )

  Fits : List OperatorVersion → Dependency → Type 0
  Fits ovs d = HasVersion ovs d.operator.name d.operator_version.version

  install_dependency-versions :
      (ns : String) (d : Dependency) (w w' : W) {u : Unit {0}}
      → d.operator_version.operator.name ≡ d.operator.name
      → install_dependency funk c ns d w ≡ (ok u, w')
      → Grows (s.versions ns w) (s.versions ns w') × Fits (s.versions ns w') d
  unfolding install_dependency Fits
  install_dependency-versions ns d w w' named h = by_stage (
      staged-versions _ (record d.operator { namespace = ns })
        (record d.operator_version { namespace = ns }) (pure tt) w w' refl h)
    where
      by_stage :
          (w1 : W) × (s.versions ns w1 ≡ s.versions ns w)
            × ((HasVersion (s.versions ns w1) d.operator.name d.operator_version.version
                  × (w1 ≡ w'))
                ⊎ ((w2 : W) × (pure {E = String} tt w1 ≡ (ok tt, w2))
                    × Permᴰ
                        (s.versions ns w')
                        (record d.operator_version { namespace = ns } ∷ s.versions ns w2)))
          → Grows (s.versions ns w) (s.versions ns w')
            × HasVersion (s.versions ns w') d.operator.name d.operator_version.version
      by_stage (w1, e, inl (there, f)) = (
        Grows-same (ap (s.versions ns) (sym f) ∙ e),
        subst (λ v. HasVersion (s.versions ns v) d.operator.name d.operator_version.version) f
            there,
      )
      by_stage (w1, e, inr (w2, f, g)) =
          let at_last : s.versions ns w2 ≡ s.versions ns w = ap (s.versions ns) (sym (cc f)) ∙ e in
          let new = record d.operator_version { namespace = ns } in
          (
            (new ∷ [], subst (λ l. Permᴰ (s.versions ns w') (new ∷ l)) at_last g),
            HasVersion-added (s.versions ns w2) (s.versions ns w') new d.operator.name named g,
          )

  Fits-Grows :
      (before after : List OperatorVersion) (d : Dependency)
      → Grows before after
      → Fits before d
      → Fits after d
  unfolding Fits
  Fits-Grows before after d grows h = HasVersion-Grows before after _ _ grows h

  install_dependencies-versions :
      (ns : String) (ds : List Dependency) (w w' : W) {u : Unit {0}}
      → All (λ d. d.operator_version.operator.name ≡ d.operator.name) ds
      → install_dependencies funk c ns ds w ≡ (ok u, w')
      → Grows (s.versions ns w) (s.versions ns w') × All (Fits (s.versions ns w')) ds
  unfolding install_dependencies
  install_dependencies-versions ns [] w w' named h =
      (Grows-same (ap (s.versions ns) (sym (cc h))), tt)
  install_dependencies-versions ns (d ∷ ds) w w' (name, named) h =
      let (done, w1, e, f) =
        >>=-ok (install_dependency funk c ns d) (λ _. install_dependencies funk c ns ds) w w' h in
      let (grows, fits) = install_dependency-versions ns d w w1 name e in
      let (later, all) = install_dependencies-versions ns ds w1 w' named f in
      (
        Grows-trans _ _ _ grows later,
        (Fits-Grows (s.versions ns w1) (s.versions ns w') d later fits, all),
      )

  -- If the operator and its operator version are of one namespace, each dependency's operator version names its
  -- operator, and the installation succeeds, then either an operator version of the operator with the same
  -- version was there before and none is added, whatever its app version, or the operator version is
  -- added, none of those before is lost, and each dependency is there with its version.
  pub operator_and_operator_version-Installed :
      (o : Operator) (ov : OperatorVersion) (ds : List Dependency) (w w' : W) {u : Unit {0}}
      → o.namespace ≡ ov.namespace
      → All (λ d. d.operator_version.operator.name ≡ d.operator.name) ds
      → operator_and_operator_version funk c o ov ds w ≡ (ok u, w')
      → (HasVersion (s.versions ov.namespace w) o.name ov.version
          × (s.versions ov.namespace w' ≡ s.versions ov.namespace w))
        ⊎ (((added : List OperatorVersion) × Permᴰ
                (s.versions ov.namespace w')
                (ov ∷ (added ++ s.versions ov.namespace w)))
            × All
                (λ d.
                  HasVersion
                    (s.versions ov.namespace w')
                    d.operator.name
                    d.operator_version.version)
                ds)
  unfolding operator_and_operator_version Fits
  operator_and_operator_version-Installed o ov ds w w' same named h =
      let (w1, e, ends) = staged-versions _ o ov _ w w' same h in
      elim ends [
        | inl (there, f) ↦ inl (
          subst (λ l. HasVersion l o.name ov.version) e there,
          ap (s.versions ov.namespace) (sym f) ∙ e,
        )
        | inr (w2, f, g) ↦
            let (grows, all) = install_dependencies-versions ov.namespace ds w1 w2 named (
              failing-ok (failed_to "install dependencies of operatorversion" ov.namespace ov.name)
                (install_dependencies funk c ov.namespace ds) w1 w2 f) in
            inr (
              (
                grows.0,
                Permᴰ.trans g (
                    Permᴰ.cons refl
                      (subst (λ l. Permᴰ (s.versions ov.namespace w2) (grows.0 ++ l)) e grows.1)),
              ),
              All-map (Fits (s.versions ov.namespace w2)) (Fits (s.versions ov.namespace w')) ds
                  (λ d.
                    Fits-Grows (s.versions ov.namespace w2) (s.versions ov.namespace w') d
                      (ov ∷ [], g))
                  all,
            )
      ]
