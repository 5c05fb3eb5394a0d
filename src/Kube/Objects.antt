-- ===== src/Kube/Objects.antt =====
-- The objects of a cluster and the clients, all of them from other packages: the records below are
-- parameters. `O` is Go's `runtime.Object`, `W` the cluster with the client's caches.
use kudo.Prelude.{String, Bool, List, [], ◌∷◌, Option, Result, concat, ◌==◌, ◌&&◌}
use kudo.Kube.Act.{Act}

-- `schema.GroupVersionKind`
pub record GroupVersionKind : Type 0 where
  pub group : String
  pub version : String
  pub kind : String

abbrev pub gvk_eq : GroupVersionKind → GroupVersionKind → Bool
gvk_eq a b = a.group == b.group && a.version == b.version && a.kind == b.kind

-- `types.NamespacedName`
pub record ObjectKey : Type 0 where
  pub namespace : String
  pub name : String

-- `gvk.String()` and `key.String()`
abbrev pub gvk_text : GroupVersionKind → String
gvk_text g = concat (g.group ∷ "/" ∷ g.version ∷ ", Kind=" ∷ g.kind ∷ [])

abbrev pub key_text : ObjectKey → String
key_text k = concat (k.namespace ∷ "/" ∷ k.name ∷ [])

-- The types that the program asks an object for. `structured` is any other.
pub data GoType : Type 0 where
  unstructured crd_v1beta1 crd_v1 operator_version operator instance structured : GoType

-- An error of the API server. `not_found` is `apierrors.IsNotFound`.
pub record ApiError : Type 0 where
  pub text : String
  pub not_found : Bool

-- An error of a merge. `precondition_failed` is `mergepatch.IsPreconditionFailed`.
pub record MergeError : Type 0 where
  pub text : String
  pub precondition_failed : Bool

-- apimachinery: what a `runtime.Object` answers. A setter returns the changed object.
pub record Objects (O : Type 0) : Type 0 where
  pub gvk : O → GroupVersionKind
  pub set_gvk : GroupVersionKind → O → O
  pub go_type : O → GoType
  -- `client.ObjectKeyFromObject`
  pub object_key : O → Result String ObjectKey
  -- `metadataAccessor`; a nil map is `none`
  pub annotations : O → Result String (Option (List (String × String)))
  pub set_annotations : List (String × String) → O → Result String O
  -- `json.Marshal`, and `runtime.Encode` with the unstructured scheme
  pub marshal : O → Result String String
  pub encode : O → Result String String
  -- `json.Unmarshal` of a text into a map
  pub is_json_map : String → Bool
  -- `CreateThreeWayJSONMergePatch` with the preconditions, of the original, modified and current text
  pub json_merge_patch : String → String → String → Result MergeError String
  -- `NewPatchMetaFromStruct` and the strategic `CreateThreeWayMergePatch`
  pub has_patch_meta : O → Result String (Unit {0})
  pub strategic_patch : O → String → String → String → Result String String

pub data PatchType : Type 0 where
  merge_patch strategic_merge_patch : PatchType

-- `metav1.APIResource` and `metav1.APIResourceList`: the fields that the program reads.
pub record ApiResource : Type 0 where
  pub kind : String
  pub namespaced : Bool

pub record ApiResourceList : Type 0 where
  pub group_version : String
  pub api_resources : List ApiResource

-- An error of discovery. `cache_not_found` is `err == memory.ErrCacheNotFound`.
pub record DiscoveryError : Type 0 where
  pub text : String
  pub cache_not_found : Bool

-- The clients. `get` reads into an object of the given type. `create` and `patch` write what the
-- server answers into the object that they were given; with an error, the object may have changed too.
pub record Client (O W : Type 0) : Type 0 where
  pub get : ObjectKey → O → W → Result ApiError O
  pub create : O → W → (Option ApiError × O) × W
  pub patch : O → PatchType → String → W → (Option ApiError × O) × W
  pub delete : O → W → Option ApiError × W
  -- `ServerResourcesForGroupVersion`, whose cache is part of `W`; a nil list is `none`
  pub server_resources : String → Act DiscoveryError W (Option ApiResourceList)
  pub invalidate : W → W
  -- `schema.ParseGroupVersion`
  pub parse_group_version : String → Result String (String × String)
