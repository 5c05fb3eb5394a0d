-- ===== src/Kube/Store.antt =====
-- The server's set of objects, as a view of the cluster, and that reading a key leaves it alone.
use kudo.Prelude.{
  ◌≡◌, refl, ◌∙◌, String, Bool, true, ◌||◌, List, Option, none, some, Result, ok, err,
}
use kudo.Kube.Act.{Act, lift, failing, then_act, ◌>>=◌}
use kudo.Kube.Objects.{GroupVersionKind, ObjectKey, ApiResource, Objects, Client, PatchType}
use kudo.Kube.Keys.{
  object_key_from_object, is_namespaced, get_uncached_api_resource, get_api_resource, or_uncached,
}

-- A server's set of stored objects. Of an object that is asked for, `stored` says whether the server
-- has one of its type, namespace and name, and `same` whether another has them too.
pub record Store {O W : Type 0} (objects : Objects O) (client : Client O W) : Type 0 where
  pub same : O → O → Bool
  pub stored : O → W → Bool
  pub same_stored : (p o : O) (w : W) → same p o ≡ true → stored p w ≡ stored o w
  pub annotations_same :
      (p o o' : O) (annots : List (String × String))
      → objects.set_annotations annots o ≡ ok o'
      → same p o' ≡ same p o
  pub resources_keep :
      (g : String) (p : O) (w : W) → stored p (client.server_resources g w).1 ≡ stored p w
  pub invalidate_keeps : (p : O) (w : W) → stored p (client.invalidate w) ≡ stored p w
  -- An object that is read under the key of `o` is the stored one.
  pub get_found :
      (o e : O) (key : ObjectKey) (w w' : W)
      → object_key_from_object client objects o w ≡ (ok key, w')
      → client.get key o w' ≡ ok e
      → stored o w' ≡ true
  pub create_adds :
      (o p : O) (w : W)
      → (client.create o w).0.0 ≡ none
      → stored p (client.create o w).1 ≡ (same p o || stored p w)
  pub patch_keeps :
      (o p : O) (type : PatchType) (text : String) (w : W)
      → stored p (client.patch o type text w).1 ≡ stored p w

module _ {O W : Type 0} (objects : Objects O) (client : Client O W) (s : Store objects client) where
  -- What leaves the set alone.
  abbrev pub Keeps : {E A : Type 0} → Act E W A → Type 0
  Keeps act = (p : O) (w : W) → s.stored p (act w).1 ≡ s.stored p w

  pub bind-Keeps :
      {E A B : Type 0} (act : Act E W A) (f : A → Act E W B)
      → Keeps act
      → ((a : A) → Keeps (f a))
      → Keeps (act >>= f)
  bind-Keeps {E} {A} {B} act f h k p w = go (act w) (h p w)
    where
      go :
          (r : Result E A × W)
          → s.stored p r.1 ≡ s.stored p w
          → s.stored p (then_act r.0 f r.1).1 ≡ s.stored p w
      go (ok a, w') e = k a p w' ∙ e
      go (err x, w') e = e

  get_api_resource-Keeps : (g : GroupVersionKind) → Keeps (get_api_resource client g)
  unfolding get_api_resource
  get_api_resource-Keeps g p w = s.resources_keep _ p w

  uncached-Keeps : (g : GroupVersionKind) → Keeps (get_uncached_api_resource client g)
  unfolding get_uncached_api_resource
  uncached-Keeps g =
      bind-Keeps (get_api_resource client g) (or_uncached client g) (get_api_resource-Keeps g) again
    where
      again : (r : Option ApiResource) → Keeps (or_uncached client g r)
      again none p w = get_api_resource-Keeps g p (client.invalidate w) ∙ s.invalidate_keeps p w
      again (some r) p w = refl

  is_namespaced-Keeps : (g : GroupVersionKind) → Keeps (is_namespaced client g)
  unfolding is_namespaced
  is_namespaced-Keeps g =
      bind-Keeps (get_uncached_api_resource client g) _ (uncached-Keeps g) λ r p w. refl

  pub object_key-Keeps : (o : O) → Keeps (object_key_from_object client objects o)
  unfolding object_key_from_object
  object_key-Keeps o =
      bind-Keeps (lift _) _ (λ p w. refl)
        λ key.
          bind-Keeps (failing _ (is_namespaced client (objects.gvk o))) _
            (is_namespaced-Keeps (objects.gvk o)) λ n p w. refl
