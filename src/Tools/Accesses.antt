-- ===== src/Tools/Accesses.antt =====
-- The Python accesses of the executors end in exceptions of the language and of the libraries alone.
use mcp_control_plane.Prelude.{String, ◌≡◌, refl, Bool, true, arith}
use mcp_control_plane.Value.{Value, Fields}
use mcp_control_plane.World.{Exn, Result, ok, raise, lift}
use mcp_control_plane.Traces.Raising.{is_plain, passes, Raising, Raising-lift}
use mcp_control_plane.Tools.Backend.{Backends, HttpResponse, index, get_of, get_default, json_of}
use mcp_control_plane.Tools.HttpClient.{elements, first_of_value}
use mcp_control_plane.Tools.Jenkins.{job_path, add_values, finished_ms, epoch_ms_to_iso}
use mcp_control_plane.Tools.Pods.{reason_of}
use mcp_control_plane.Tools.Manifest.{metadata_of}

-- A test that lets these exceptions pass.
pub record Plain (p : Exn → Bool) : Type 0 where
  pub lets : (e : Exn) → is_plain e ≡ true → p e ≡ true

abbrev IsPlain {ℓ} : {A : Type ℓ} → Result A → Type 0
IsPlain r = passes is_plain r ≡ true

weaker {ℓ} :
    {A : Type ℓ} (p : Exn → Bool) → Plain p → (r : Result A) → IsPlain r → passes p r ≡ true
weaker p plain (ok a) h = refl
weaker p plain (raise e) h = plain.lets e h

index-IsPlain : (v : Value) (key : String) → IsPlain (index v key)
unfolding index
index-IsPlain v key = ground arith

get_of-IsPlain : (v : Value) (key : String) → IsPlain (get_of v key)
unfolding get_of
get_of-IsPlain v key = ground arith

get_default-IsPlain : (v : Value) (key : String) (d : Value) → IsPlain (get_default v key d)
unfolding get_default
get_default-IsPlain v key d = ground arith

json_of-IsPlain : (r : HttpResponse) → IsPlain (json_of r)
unfolding json_of
json_of-IsPlain r = ground arith

elements-IsPlain : (v : Value) → IsPlain (elements v)
unfolding elements
elements-IsPlain v = ground arith

first_of_value-IsPlain : (v : Value) → IsPlain (first_of_value v)
unfolding first_of_value
first_of_value-IsPlain v = ground arith

job_path-IsPlain : (v : Value) → IsPlain (job_path v)
unfolding job_path
job_path-IsPlain v = ground arith

finished_ms-IsPlain : (b : Backends) (v w : Value) → IsPlain (finished_ms b v w)
unfolding finished_ms add_values
finished_ms-IsPlain b v w = ground arith

epoch_ms_to_iso-IsPlain : (b : Backends) (v : Value) → IsPlain (epoch_ms_to_iso b v)
unfolding epoch_ms_to_iso
epoch_ms_to_iso-IsPlain b v = ground arith

reason_of-IsPlain : (arguments : Fields) → IsPlain (reason_of arguments)
unfolding reason_of
reason_of-IsPlain arguments = ground arith

metadata_of-IsPlain : (manifest : Fields) → IsPlain (metadata_of manifest)
unfolding metadata_of
metadata_of-IsPlain manifest = ground arith

module _ (p : Exn → Bool) (plain : Plain p) where
  lifted {ℓ} : {A : Type ℓ} (r : Result A) → IsPlain r → Raising p (lift r)
  lifted r h = Raising-lift r (weaker p plain r h)

  pub index-Raising : (v : Value) (key : String) → Raising p (lift (index v key))
  index-Raising v key = lifted _ (index-IsPlain v key)

  pub get_of-Raising : (v : Value) (key : String) → Raising p (lift (get_of v key))
  get_of-Raising v key = lifted _ (get_of-IsPlain v key)

  pub get_default-Raising :
      (v : Value) (key : String) (d : Value) → Raising p (lift (get_default v key d))
  get_default-Raising v key d = lifted _ (get_default-IsPlain v key d)

  pub json_of-Raising : (r : HttpResponse) → Raising p (lift (json_of r))
  json_of-Raising r = lifted _ (json_of-IsPlain r)

  pub elements-Raising : (v : Value) → Raising p (lift (elements v))
  elements-Raising v = lifted _ (elements-IsPlain v)

  pub first_of_value-Raising : (v : Value) → Raising p (lift (first_of_value v))
  first_of_value-Raising v = lifted _ (first_of_value-IsPlain v)

  pub job_path-Raising : (v : Value) → Raising p (lift (job_path v))
  job_path-Raising v = lifted _ (job_path-IsPlain v)

  pub finished_ms-Raising : (b : Backends) (v w : Value) → Raising p (lift (finished_ms b v w))
  finished_ms-Raising b v w = lifted _ (finished_ms-IsPlain b v w)

  pub epoch_ms_to_iso-Raising : (b : Backends) (v : Value) → Raising p (lift (epoch_ms_to_iso b v))
  epoch_ms_to_iso-Raising b v = lifted _ (epoch_ms_to_iso-IsPlain b v)

  pub reason_of-Raising : (arguments : Fields) → Raising p (lift (reason_of arguments))
  reason_of-Raising arguments = lifted _ (reason_of-IsPlain arguments)

  pub metadata_of-Raising : (manifest : Fields) → Raising p (lift (metadata_of manifest))
  metadata_of-Raising manifest = lifted _ (metadata_of-IsPlain manifest)

pub ruleset access_rules = (
  index-Raising, get_of-Raising, get_default-Raising, json_of-Raising, elements-Raising,
  first_of_value-Raising, job_path-Raising, finished_ms-Raising, epoch_ms_to_iso-Raising,
  reason_of-Raising, metadata_of-Raising,
)
