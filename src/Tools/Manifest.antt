-- ===== src/Tools/Manifest.antt =====
-- app/tools/tools_spec.py: `apply_k8s_manifest`.
use mcp_control_plane.Prelude.{
  ℕ, String, true, Option, none, some, [], ◌∷◌, concat, not, ◌==◌, ◌&&◌, ◌||◌, if◌then◌else◌,
}
use mcp_control_plane.Value.{Value, bool, str, obj, Fields, end, field, truthy, or_else, record_of}
use mcp_control_plane.World.{attribute_error, Result, ok, raise, M, pure, lift, ◌>>=◌, ◌>>◌}
use mcp_control_plane.Clock.{utc_stamp}
use mcp_control_plane.Tools.Backend.{Backends, shown, values_equal, arg, validation_error, utc_now}
use mcp_control_plane.Tools.KubeClient.{k8s_run, resource_for}
use mcp_control_plane.Tools.Pods.{require_reason}

-- `{**fields, key: v}`: a key that is there keeps its place.
unfoldable pub set_field : Fields → String → Value → Fields
set_field end key v = field key v end
set_field (field k w fs) key v =
    let rest = set_field fs key v in if k == key then field k v fs else field k w rest

-- `isinstance(manifest, dict)`
abbrev pub dict_of : Value → Option Fields
dict_of (obj fs) = some fs
dict_of _ = none

-- `manifest.get("metadata") or {}`, whose `.get` is then called
unfoldable pub metadata_of : Fields → Result Fields
metadata_of manifest = elim (dict_of (or_else (arg manifest "metadata") (obj end))) [
  | none ↦ raise attribute_error
  | some fs ↦ ok fs
]

-- `{**manifest, "metadata": {**metadata, "namespace": namespace}}`
unfoldable pub placed : (manifest metadata : Fields) → Value → Fields
unfolding set_field
placed manifest metadata namespace =
    set_field manifest "metadata" (obj (set_field metadata "namespace" namespace))

module _ (b : Backends) (arguments : Fields) where
  abbrev pub namespace : Value
  namespace = arg arguments "namespace"

  unfoldable pub apply_result : (api_version kind name : Value) → ℕ → Value
  unfolding utc_stamp
  apply_result api_version kind name now = record_of (
      ("status", str "applied")
      ∷ ("kind", kind)
      ∷ ("api_version", api_version)
      ∷ ("name", name)
      ∷ ("namespace", namespace)
      ∷ ("applied_at", str (utc_stamp now))
      ∷ ("message", str "Server-side apply submitted.")
      ∷ [])

  -- from the lookup of the kind on
  unfoldable pub submit : (manifest metadata : Fields) → (api_version kind name : Value) → M Value
  unfolding resource_for shown k8s_run placed utc_now apply_result
  submit manifest metadata api_version kind name = do
    namespaced ← resource_for b api_version kind
    if not namespaced
        then validation_error (
            concat (
              "'"
              ∷ shown b kind
              ∷ "' is a cluster-scoped resource; apply_k8s_manifest only supports namespaced resources"
              ∷ []))
        else do
          k8s_run b b.apply "server_side_apply"
              (concat (
                shown b kind
                ∷ " '"
                ∷ shown b name
                ∷ "' in namespace '"
                ∷ shown b namespace
                ∷ "'"
                ∷ []))
              (field "body" (obj (placed manifest metadata namespace)) (
                field "name" name (
                  field "namespace" namespace (
                    field "field_manager" (str "mcp-control-plane")
                      (field "force_conflicts" (bool true) end)))))
          now ← utc_now b
          pure (apply_result api_version kind name now)

  -- from the metadata on
  unfoldable pub place : (manifest metadata : Fields) → (api_version kind : Value) → M Value
  unfolding shown values_equal submit
  place manifest metadata api_version kind =
      let name = arg metadata "name" in
      let manifest_namespace = arg metadata "namespace" in
      if not (truthy name)
      then validation_error "manifest.metadata.name is required"
      else if truthy manifest_namespace && not (values_equal b manifest_namespace namespace)
      then validation_error (
          concat (
            "manifest.metadata.namespace ('"
            ∷ shown b manifest_namespace
            ∷ "') must match the 'namespace' argument ('"
            ∷ shown b namespace
            ∷ "')"
            ∷ []))
      else submit manifest metadata api_version kind name

  -- from the reason on, for a manifest that is a dict
  unfoldable pub checked_manifest : Fields → M Value
  unfolding require_reason metadata_of place
  checked_manifest manifest = do
    require_reason arguments
    if not (truthy (arg manifest "apiVersion")) || not (truthy (arg manifest "kind"))
        then validation_error "manifest must include 'apiVersion' and 'kind'"
        else do
          metadata ← lift (metadata_of manifest)
          place manifest metadata (arg manifest "apiVersion") (arg manifest "kind")

  abbrev pub with_manifest : Option Fields → M Value
  with_manifest none = validation_error "'manifest' is required and must be an object"
  with_manifest (some manifest) = checked_manifest manifest

  unfoldable pub apply_k8s_manifest : M Value
  unfolding checked_manifest
  apply_k8s_manifest =
      if not (truthy namespace)
      then validation_error "'namespace' is required"
      else with_manifest (dict_of (arg arguments "manifest"))
