-- ===== src/Tools/Placed.antt =====
-- app/tools/tools_spec.py: what `apply_k8s_manifest` submits.
use mcp_control_plane.Prelude.{
  String, ◌≡◌, refl, true, Option, none, some, arith, ◌==◌, if◌then◌else◌, Bool-cases, inl, inr,
  eq_iff,
}
use mcp_control_plane.Value.{Value, obj, str, bool, Fields, field, end, get}
use mcp_control_plane.World.{Trace, M}
use mcp_control_plane.Tools.Backend.{Backends, arg}
use mcp_control_plane.Tools.Manifest.{
  set_field, placed, submit, place, checked_manifest, with_manifest, apply_k8s_manifest,
}
use mcp_control_plane.Tools.Footprint.{
  entry, K8sCall, Permits, permit_rules, reason-Permits, unreasoned-Permits, has_reason,
  body_namespace, k8s_methods,
}

-- Of `{**fields, key: v}` the key reads `v`, and every other key what it read in `fields`.
pub get-set_field :
    (fs : Fields) (key : String) (v : Value) (j : String)
    → get (set_field fs key v) j ≡ (if key == j then some v else get fs j)
unfolding set_field
get-set_field end key v j = refl
get-set_field (field k w fs) key v j =
    ground (arith, get-set_field fs key v j, eq_iff k key, eq_iff k j, eq_iff key j)

placed_namespace :
    (manifest metadata : Fields) (v : Value)
    → body_namespace (field "body" (obj (placed manifest metadata v)) end) ≡ some v
unfolding placed
placed_namespace manifest metadata v =
    rw
      (
        get-set_field manifest "metadata" (obj (set_field metadata "namespace" v)) "metadata",
        get-set_field metadata "namespace" v "namespace",
      )
      refl

-- The manifest that is applied reads, at every key but metadata, as the manifest of the arguments; its metadata
-- reads the namespace of the arguments at namespace, and as the manifest's metadata at every other key.
pub placed-reads :
    (manifest metadata : Fields) (namespace : Value) (key inner : String)
    → (get (placed manifest metadata namespace) key ≡ (
        if "metadata" == key
        then some (obj (set_field metadata "namespace" namespace))
        else get manifest key))
      × (entry (get (placed manifest metadata namespace) "metadata") inner
          ≡ (if "namespace" == inner then some namespace else get metadata inner))
unfolding placed
placed-reads manifest metadata namespace key inner = (
  get-set_field manifest "metadata" (obj (set_field metadata "namespace" namespace)) key,
  rw (get-set_field manifest "metadata" (obj (set_field metadata "namespace" namespace)) "metadata")
      (get-set_field metadata "namespace" namespace inner),
)

module _ (arguments : Fields) where
  apply-K8sCall :
      (manifest metadata : Fields) (name : Value)
      → has_reason arguments ≡ true
      → K8sCall "apply_k8s_manifest" arguments "server_side_apply" (
          field "body" (obj (placed manifest metadata (arg arguments "namespace"))) (
            field "name" name (
              field "namespace" (arg arguments "namespace") (
                field "field_manager"
                  (str "mcp-control-plane")
                  (field "force_conflicts" (bool true) end)))))
  unfolding k8s_methods
  apply-K8sCall manifest metadata name e = record {
    its_method = refl;
    in_namespace = refl;
    body_in_namespace = placed_namespace manifest metadata (arg arguments "namespace");
    justified = e;
    bounded = refl;
  }

module _ (before : Trace) (b : Backends) (arguments : Fields) where
  abbrev Applies : M Value → Type 0
  Applies m = Permits before "apply_k8s_manifest" arguments m

  submit-Permits :
      (manifest metadata : Fields) (api_version kind name : Value)
      → has_reason arguments ≡ true
      → Applies (submit b arguments manifest metadata api_version kind name)
  unfolding submit
  submit-Permits manifest metadata api_version kind name e =
      search (permit_rules, apply-K8sCall, e) depth 16

  place-Permits :
      (manifest metadata : Fields) (api_version kind : Value)
      → has_reason arguments ≡ true
      → Applies (place b arguments manifest metadata api_version kind)
  unfolding place
  place-Permits manifest metadata api_version kind e =
      search (permit_rules, submit-Permits, e) depth 16

  checked_manifest-Permits : (manifest : Fields) → Applies (checked_manifest b arguments manifest)
  unfolding checked_manifest
  checked_manifest-Permits manifest = elim (Bool-cases (has_reason arguments)) [
    | inl e ↦ search (permit_rules, reason-Permits, place-Permits, e) depth 16
    | inr e ↦ search (permit_rules, unreasoned-Permits, e) depth 16
  ]

  with_manifest-Permits : (o : Option Fields) → Applies (with_manifest b arguments o)
  with_manifest-Permits none = search permit_rules
  with_manifest-Permits (some manifest) = checked_manifest-Permits manifest

  pub apply_k8s_manifest-Permits : Applies (apply_k8s_manifest b arguments)
  unfolding apply_k8s_manifest
  apply_k8s_manifest-Permits = search (permit_rules, with_manifest-Permits) depth 16
