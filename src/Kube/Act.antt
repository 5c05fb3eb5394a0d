-- ===== src/Kube/Act.antt =====
-- A Go function that acts on a cluster `W` and returns a value and an error. What was done before an
-- error stays done, so the cluster comes back beside the error too.
use kudo.Prelude.{◌≡◌, refl, Result, ok, err}

abbrev pub Act : Type 0 → Type 0 → Type 0 → Type 0
Act E W A = W → Result E A × W

-- `if err != nil { return nil, f(err) }`
abbrev pub map_error : {E F A : Type 0} → (E → F) → Result E A → Result F A
map_error f (ok a) = ok a
map_error f (err e) = err (f e)

module _ {E W : Type 0} where
  abbrev pub pure : {A : Type 0} → A → Act E W A
  pure a w = (ok a, w)

  abbrev pub raise : {A : Type 0} → E → Act E W A
  raise e w = (err e, w)

  abbrev pub lift : {A : Type 0} → Result E A → Act E W A
  lift r w = (r, w)

  -- The same, for a function that acts.
  abbrev pub failing : {A F : Type 0} → (F → E) → Act F W A → Act E W A
  failing f m w = let (r, w') = m w in (map_error f r, w')

  abbrev pub then_act : {A B : Type 0} → Result E A → (A → Act E W B) → Act E W B
  then_act (ok a) f w = f a w
  then_act (err e) f w = (err e, w)

  infixl 5 ◌>>=◌ ◌>>◌
  abbrev pub ◌>>=◌ : {A B : Type 0} → Act E W A → (A → Act E W B) → Act E W B
  ◌>>=◌ m f w = let (r, w') = m w in then_act r f w'

  abbrev pub ◌>>◌ : {A B : Type 0} → Act E W A → Act E W B → Act E W B
  m >> k = m >>= λ _. k

  -- Inversion of a bind that succeeds.
  pub >>=-ok :
      {A B : Type 0} (m : Act E W A) (f : A → Act E W B) (w last : W) {b : B}
      → (m >>= f) w ≡ (ok b, last)
      → (a : A) × (w' : W) × (m w ≡ (ok a, w')) × (f a w' ≡ (ok b, last))
  >>=-ok {A} {B} m f w last {b} h = go (m w) refl h
    where
      go :
          (r : Result E A × W)
          → m w ≡ r
          → then_act r.0 f r.1 ≡ (ok b, last)
          → (a : A) × (w' : W) × (m w ≡ (ok a, w')) × (f a w' ≡ (ok b, last))
      go (ok a, w') e k = (a, w', e, k)
      go (err x, w') e k = cc

  -- Inversion of a renamed error.
  pub failing-ok :
      {A F : Type 0} (f : F → E) (m : Act F W A) (w last : W) {a : A}
      → failing f m w ≡ (ok a, last)
      → m w ≡ (ok a, last)
  failing-ok {A} {F} f m w last {a} h = go (m w) refl h
    where
      go :
          (r : Result F A × W)
          → m w ≡ r
          → ◌≡◌ {A = Result E A × W} (map_error f r.0, r.1) (ok a, last)
          → m w ≡ (ok a, last)
      go (ok b, w') e k = cc
      go (err x, w') e k = cc

  pub lift-map_error-ok :
      {A F : Type 0} (f : F → E) (r : Result F A) (w last : W) {a : A}
      → lift (map_error f r) w ≡ (ok a, last)
      → (r ≡ ok a) × (w ≡ last)
  lift-map_error-ok f (ok b) w last h = (cc, cc)
  lift-map_error-ok f (err x) w last h = absurd (cc)
