-- ===== src/Tasks/Stored.antt =====
-- What an apply task leaves in the cluster, against the abstract operation "add these objects".
use kudo.Prelude.{
  ◌≡◌, refl, ap, sym, subst, ◌∙◌, String, Bool, true, false, ◌||◌, List, [], ◌∷◌, Option, none,
  some, Result, ok, err, All, arith, inl, inr, Bool-cases, concat,
}
use kudo.Engine.{Error, plain_error}
use kudo.Kube.Act.{lift, failing, >>=-ok, failing-ok, lift-map_error-ok}
use kudo.Kube.Objects.{ObjectKey, ApiError}
use kudo.Kube.Keys.{object_key_from_object}
use kudo.Kube.Store.{Store, Keeps, bind-Keeps, object_key-Keeps}
use kudo.Tasks.Run.{TaskMetadata, Context}
use kudo.Tasks.Render.{Machinery}
use kudo.Prelude.Maps.{insert}
use kudo.Tasks.Patch.{
  last_applied_config_annotation, or_empty, add_last_applied_config_annotation, create_patch,
  patch_answer, patch_resource,
}
use kudo.Tasks.Apply.{
  create_answer, apply_found, create_resource, apply_resource, apply_resources, prepare_objects,
  is_resource_healthy,
}

module _ {Y O W : Type 0} (m : Machinery Y O W) (s : Store m.objects m.client) where
  -- The abstract operation: the set with the declared objects added.
  abbrev pub declared : O → List O → Bool
  declared p [] = false
  declared p (o ∷ rest) = s.same p o || declared p rest

  -- What an action that adds `o` does to the set.
  abbrev Adds : O → W → W → Type 0
  Adds o w w' = (p : O) → s.stored p w' ≡ (s.same p o || s.stored p w)

  annotated-same :
      (r o p : O) → add_last_applied_config_annotation m.objects r ≡ ok o → s.same p o ≡ s.same p r
  unfolding add_last_applied_config_annotation
  annotated-same r o p h = by_marshal (m.objects.marshal r) (m.objects.annotations r) h
    where
      by_marshal :
          (a : Result String String) (b : Result String (Option (List (String × String))))
          → elim a [
            | err e ↦ err (concat ("failed to marshal obj: " ∷ e ∷ []))
            | ok serialized ↦ elim b [
              | err e ↦ err (concat ("failed to access annotations: " ∷ e ∷ []))
              | ok annots ↦
                  m.objects.set_annotations
                    (insert last_applied_config_annotation serialized (or_empty annots))
                    r
            ]
          ]
            ≡ ok o
          → s.same p o ≡ s.same p r
      by_marshal (err e) b k = cc
      by_marshal (ok t) (err e) k = cc
      by_marshal (ok t) (ok annots) k = s.annotations_same p r o _ k

  create_resource-Adds :
      (r o : O) (key : ObjectKey) (w w' : W) → create_resource m r key w ≡ (ok o, w') → Adds r w w'
  unfolding create_resource
  create_resource-Adds r o key w w' h p =
      let (annotated, w1, e, k) =
        >>=-ok (lift _) (λ a v. create_answer m r (m.client.create a v)) w w' h in
      let (added, same_world) =
        lift-map_error-ok _ (add_last_applied_config_annotation m.objects r) w w1 e in
      by_answer annotated (annotated-same r annotated p added) (m.client.create annotated w) refl (
        subst (λ v. create_answer m r (m.client.create annotated v) ≡ (ok o, w')) (sym same_world)
          k)
    where
      by_answer :
          (a : O)
          → s.same p a ≡ s.same p r
          → (c : (Option ApiError × O) × W) → m.client.create a w ≡ c
          → create_answer m r c ≡ (ok o, w')
          → s.stored p w' ≡ (s.same p r || s.stored p w)
      by_answer a e ((none, o'), v) c k =
          cc (s.create_adds a p w (ap (λ x. x.0.0) c), ap (λ x. x.1) c)
      by_answer a e ((some x, o'), v) c k = cc

  patch_resource-Keeps :
      (meta : TaskMetadata) (r e : O)
      → Keeps m.objects m.client s (patch_resource m.objects meta m.client r e)
  unfolding patch_resource
  patch_resource-Keeps meta r e =
      bind-Keeps m.objects m.client s (lift (create_patch m.objects meta r e))
        (λ d w. patch_answer m.objects meta (m.client.patch d.0 d.1 d.2 w)) (λ p w. refl)
        λ d p w. by_answer p (m.client.patch d.0 d.1 d.2 w) ∙ s.patch_keeps d.0 p d.1 d.2 w
    where
      by_answer :
          (p : O) (c : (Option ApiError × O) × W)
          → s.stored p (patch_answer m.objects meta c).1 ≡ s.stored p c.1
      by_answer p ((none, o), v) = refl
      by_answer p ((some x, o), v) = refl

  found_adds :
      (r p : O) (w w' : W)
      → s.stored r w ≡ true
      → s.stored p w' ≡ s.stored p w
      → s.stored p w' ≡ (s.same p r || s.stored p w)
  found_adds r p w w' h k = elim (Bool-cases (s.same p r)) [
    | inl e ↦ cc (k, e, h, s.same_stored p r w e)
    | inr e ↦ cc (k, e)
  ]

  apply_found-Adds :
      (meta : TaskMetadata) (r o : O) (key : ObjectKey) (w w1 w' : W)
      → object_key_from_object m.client m.objects r w ≡ (ok key, w1)
      → apply_found m meta r key (m.client.get key r w1) w1 ≡ (ok o, w')
      → Adds r w1 w'
  unfolding apply_found
  apply_found-Adds meta r o key w w1 w' e h = by_read (m.client.get key r w1) refl h
    where
      by_read :
          (a : Result ApiError O)
          → m.client.get key r w1 ≡ a
          → apply_found m meta r key a w1 ≡ (ok o, w')
          → Adds r w1 w'
      by_read (ok existing) c k p = found_adds r p w1 w' (s.get_found r existing key w w1 e c) (
          sym (ap (λ (x : Result Error O × W). s.stored p x.1) k)
          ∙ patch_resource-Keeps meta r existing p w1)
      by_read (err x) c k p = elim (Bool-cases x.not_found) [
        | inl f ↦ create_resource-Adds r o key w1 w' (rw f at k) p
        | inr f ↦ cc (rw f at k)
      ]

  apply_resource-Adds :
      (meta : TaskMetadata) (r o : O) (w w' : W)
      → apply_resource m meta r w ≡ (ok o, w')
      → Adds r w w'
  unfolding apply_resource
  apply_resource-Adds meta r o w w' h p =
      let (key, w1, a, k) =
        >>=-ok (failing plain_error (object_key_from_object m.client m.objects r))
          (λ key v. apply_found m meta r key (m.client.get key r v) v) w w' h in
      let e = failing-ok plain_error (object_key_from_object m.client m.objects r) w w1 a in
      apply_found-Adds meta r o key w w1 w' e k p
      ∙ ap (λ b. s.same p r || b)
          (sym (ap (λ (x : Result String ObjectKey × W). s.stored p x.1) e)
            ∙ object_key-Keeps m.objects m.client s r p w)

  -- If `applyResources` returns no error, then the server's set of objects is the one that it had,
  -- with the given objects added.
  pub apply_resources-declared :
      (meta : TaskMetadata) (rs os : List O) (w w' : W)
      → apply_resources m meta rs w ≡ (ok os, w')
      → (p : O) → s.stored p w' ≡ (declared p rs || s.stored p w)
  unfolding apply_resources
  apply_resources-declared meta [] os w w' h p = cc
  apply_resources-declared meta (r ∷ rest) os w w' h p =
      let (o, w1, a, k) = >>=-ok (apply_resource m meta r) _ w w' h in
      let (later, w2, b, l) = >>=-ok (apply_resources m meta rest) _ w1 w' k in
      ground (
        arith,
        apply_resource-Adds meta r o w w1 a p,
        apply_resources-declared meta rest later w1 w2 b p,
        l,
      )

  -- A finished apply task: its objects were prepared and applied, and each is healthy as the server
  -- returned it. The set of stored objects is the one before, with the prepared ones added.
  pub record Finished (names : List String) (ctx : Context Y) (w w' : W) : Type 0 where
    pub prepared : List O
    pub between : W
    pub prepares : prepare_objects m names ctx w ≡ (ok prepared, between)
    pub applied : List O
    pub applies : apply_resources m ctx.meta prepared between ≡ (ok applied, w')
    pub healthy : All (λ o. is_resource_healthy (m.health_view o) ≡ none) applied
    pub adds : (p : O) → s.stored p w' ≡ (declared p prepared || s.stored p between)
