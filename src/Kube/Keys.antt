-- ===== src/Kube/Keys.antt =====
-- pkg/engine/resource/object_key.go, and `IsDeleted` of pkg/kubernetes/status/health.go.
use kudo.Prelude.{
  String, Bool, true, false, List, [], ◌∷◌, Option, none, some, Result, ok, err, concat, ◌==◌,
  if◌then◌else◌,
}
use kudo.Kube.Act.{Act, pure, lift, failing, map_error, ◌>>=◌}
use kudo.Kube.Objects.{
  GroupVersionKind, gvk_eq, gvk_text, ObjectKey, key_text, ApiError, ApiResource, ApiResourceList,
  DiscoveryError, Objects, Client,
}

-- `gvk.GroupVersion().String()`
abbrev pub group_version_text : GroupVersionKind → String
group_version_text g = if g.group == "" then g.version else concat (g.group ∷ "/" ∷ g.version ∷ [])

-- The loop over the resources of a list.
unfoldable pub find_resource :
    GroupVersionKind → String × String → List ApiResource → Option ApiResource
find_resource g gv [] = none
find_resource g gv (r ∷ rest) =
    if gvk_eq g (record { group = gv.0; version = gv.1; kind = r.kind })
    then some r
    else find_resource g gv rest

module _ {O W : Type 0} (client : Client O W) where
  abbrev found_in :
      GroupVersionKind
      → Result DiscoveryError (Option ApiResourceList)
      → Result String (Option ApiResource)
  found_in g (err e) = if e.cache_not_found then ok none else err e.text
  found_in g (ok none) = ok none
  found_in g (ok (some l)) = elim (client.parse_group_version l.group_version) [
    | err e ↦ err e
    | ok gv ↦ ok (find_resource g gv l.api_resources)
  ]

  unfoldable pub get_api_resource : GroupVersionKind → Act String W (Option ApiResource)
  unfolding find_resource
  get_api_resource g w =
      let (r, w') = client.server_resources (group_version_text g) w in (found_in g r, w')

  -- The second try, with the cache invalidated.
  abbrev pub or_uncached : GroupVersionKind → Option ApiResource → Act String W (Option ApiResource)
  or_uncached g (some r) w = (ok (some r), w)
  or_uncached g none w = get_api_resource g (client.invalidate w)

  unfoldable pub get_uncached_api_resource : GroupVersionKind → Act String W (Option ApiResource)
  unfolding get_api_resource
  get_uncached_api_resource g = do first ← get_api_resource g; or_uncached g first

  abbrev namespaced_of : GroupVersionKind → Option ApiResource → Result String Bool
  namespaced_of g (some r) = ok r.namespaced
  namespaced_of g none = err (
      concat
        ("a resource with GVK " ∷ gvk_text g ∷ " seems to be missing in API resource list" ∷ []))

  unfoldable pub is_namespaced : GroupVersionKind → Act String W Bool
  unfolding get_uncached_api_resource
  is_namespaced g = do r ← get_uncached_api_resource g; lift (namespaced_of g r)

  abbrev is_known : Option ApiResource → Bool
  is_known none = false
  is_known (some r) = true

  unfoldable pub is_known_type : GroupVersionKind → Act String W Bool
  unfolding get_uncached_api_resource
  is_known_type g = do r ← get_uncached_api_resource g; pure (is_known r)

  module _ (objects : Objects O) where
    abbrev pub is_namespaced_object : O → Act String W Bool
    is_namespaced_object o = is_namespaced (objects.gvk o)

    abbrev pub is_known_object_type : O → Act String W Bool
    is_known_object_type o = is_known_type (objects.gvk o)

    abbrev scoped : ObjectKey → Bool → ObjectKey
    scoped key namespaced = if namespaced then key else record { namespace = ""; name = key.name }

    unfoldable pub object_key_from_object : O → Act String W ObjectKey
    unfolding is_namespaced
    object_key_from_object o = do
      key ← lift (
          map_error
            (λ e. concat (
              "failed to get an object key from object "
              ∷ gvk_text (objects.gvk o)
              ∷ ": "
              ∷ e
              ∷ []))
            (objects.object_key o))
      namespaced ←
          failing
            (λ (e : String). concat (
              "failed to determine if the resource "
              ∷ gvk_text (objects.gvk o)
              ∷ " is cluster-scoped: "
              ∷ e
              ∷ []))
            (is_namespaced_object o)
      pure (scoped key namespaced)

    -- The answer to the read of an object that was deleted.
    abbrev pub deleted_of : ObjectKey → Result ApiError O → Result String (Bool × String)
    deleted_of key (ok o) = ok (false, concat (key_text key ∷ " is not deleted" ∷ []))
    deleted_of key (err e) =
        if e.not_found
        then ok (true, concat (key_text key ∷ " is deleted" ∷ []))
        else err (concat (key_text key ∷ " is not deleted: " ∷ e.text ∷ []))

    unfoldable pub is_deleted : O → Act String W (Bool × String)
    unfolding object_key_from_object
    is_deleted o = do
      key ←
          failing (λ (e : String). concat ("failed to get object key from object: " ∷ e ∷ []))
            (object_key_from_object o)
      λ w. (deleted_of key (client.get key o w), w)
