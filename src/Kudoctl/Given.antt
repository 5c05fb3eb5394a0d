-- ===== src/Kudoctl/Given.antt =====
-- What an installation by pkg/kudoctl/packages/install has checked when it succeeds.
use kudo.Prelude.{
  ◌≡◌, refl, ap, String, true, false, not, ◌&&◌, List, [], ◌∷◌, some, Result, ok, Bool-cases, inl,
  inr, All, arith,
}
use kudo.Prelude.Maps.{has_key}
use kudo.Kube.Act.{lift, >>=-ok}
use kudo.Libraries.{Packages}
use kudo.Api.Operator.{Parameter}
use kudo.Api.Parameters.{is_required, has_default}
use kudo.Kudoctl.Convert.{PackageResources}
use kudo.Kudoctl.Client.{Clientset}
use kudo.Kudoctl.Install.{Dependency}
use kudo.Kudoctl.Package.{
  Options, Environment, missing_parameters, missing_error, validate_install_parameters,
  parameters_given, apply_overrides, install_resources, install_package,
}

-- The parameter has a value if it must have one.
abbrev pub IsGiven : List (String × String) → Parameter → Type 0
IsGiven given p = (is_required p ≡ true) → (has_default p ≡ false) → has_key p.name given ≡ true

missing_parameters-IsGiven :
    (given : List (String × String)) (ps : List Parameter)
    → missing_parameters given ps ≡ []
    → All (IsGiven given) ps
unfolding missing_parameters
missing_parameters-IsGiven given [] h = tt
missing_parameters-IsGiven given (p ∷ ps) h =
    elim (Bool-cases (is_required p && not (has_default p) && not (has_key p.name given))) [
      | inl e ↦ absurd (cc (rw e at h))
      | inr e ↦ (λ k l. ground (arith, e, k, l), missing_parameters-IsGiven given ps (rw e at h))
    ]

missing_error-ok : (ms : List String) {u : Unit {0}} → missing_error ms ≡ ok u → ms ≡ []
missing_error-ok [] h = refl
missing_error-ok (m ∷ ms) h = cc

module _ {W N D Y : Type 0} (funk : Packages) (c : Clientset W) (e : Environment W N D Y) where
  -- If `Package` succeeds and an instance was to be installed, then each required parameter without a default
  -- has a value: of those given, or, if none are given, of those of the package's instance.
  pub install_package-IsGiven :
      (name namespace : String) (r : PackageResources) (values : List (String × String))
      (dependencies : List Dependency) (options : Options D) (w w' : W) {u : Unit {0}}
      → options.skip_instance ≡ false
      → install_package funk c e name namespace r (some values) dependencies options w ≡ (ok u, w')
      → All (IsGiven values) r.operator_version.parameters
  unfolding install_package install_resources apply_overrides validate_install_parameters
  install_package-IsGiven name namespace r values dependencies options w w' no_skip h =
      let i = (apply_overrides r name namespace (some values)).instance.instance in
      let checked =
        parameters_given funk c e options.skip_instance i r.operator_version.parameters in
      let (done, w1, f, g) = >>=-ok (lift checked) _ w w' h in
      missing_parameters-IsGiven values r.operator_version.parameters
        (missing_error-ok _ (rw no_skip at (ap (λ (x : Result String (Unit {0}) × W). x.0) f)))
