-- ===== src/Muxdebug/Client.antt =====
-- `KubeClient` of `tools/muxdebug/k8s_client.py`: what `kubectl` prints, behind files that keep the
-- lists for a minute. The process `kubectl`, the clock and the reading of a file are parameters.
use svc_lb_mux.Prelude.{
  ℕ, ◌-◌, Bool, Option, none, some, List, [], ◌∷◌, ◌++◌, ltb, if◌then◌else◌, Str, codes,
  Str-discrete, strip, join, show_nat,
}
use svc_lb_mux.Prelude.Dict.{Dict, get, put}

-- `CompletedProcess`: whether the code is zero, and the two outputs.
pub record Completed : Type 0 where
  pub succeeded : Bool
  pub stdout : Str
  pub stderr : Str

-- A file of the cache: the time of its last change, and what `pickle` reads from it, if it can.
pub record CacheFile (A : Type 0) : Type 0 where
  pub modified : ℕ
  pub content : Option A

abbrev pub cache_ttl : ℕ
cache_ttl = 60

-- `_get_current_context`
abbrev pub get_current_context : Completed → Str
get_current_context result = if result.succeeded then strip result.stdout else codes "default"

-- `_get_cache_path`, without the directory
unfoldable pub get_cache_path : Str → Str → Str
get_cache_path context key = context ++ b'_' ∷ key ++ codes ".cache"

module _ {A : Type 0} where
  abbrev pub valid_data : ℕ → Option (CacheFile A) → Option A
  valid_data now none = none
  valid_data now (some file) = if ltb cache_ttl (now - file.modified) then none else file.content

  -- `_get_cached_data` at the time `now`
  unfoldable pub get_cached_data : Str → ℕ → Str → Dict Str (CacheFile A) → Option A
  unfolding get_cache_path
  get_cached_data context now key files =
      valid_data now (get Str-discrete files (get_cache_path context key))

  -- `_set_cached_data` at the time `now`; without effect where the file cannot be written
  unfoldable pub set_cached_data :
      Str → Bool → ℕ → Str → A → Dict Str (CacheFile A) → Dict Str (CacheFile A)
  unfolding get_cache_path
  set_cached_data context writable now key value files =
      if writable
      then put Str-discrete files (get_cache_path context key)
          (record { modified = now; content = some value })
      else files

-- `["kubectl", "--context", self.context] + args`
abbrev pub kubectl_command : Str → List Str → List Str
kubectl_command context args = codes "kubectl" ∷ codes "--context" ∷ context ∷ args

-- the parts of the cache key that an argument adds: a missing and an empty argument add nothing
abbrev pub part_of : Str → Option Str → List Str → List Str
part_of before none otherwise = otherwise
part_of before (some []) otherwise = otherwise
part_of before (some (c ∷ s)) otherwise = (before ++ c ∷ s) ∷ []

unfoldable pub list_cache_key : Str → Option Str → Option Str → Str
list_cache_key resource_type namespace selector = join (b'_' ∷ []) (
    (codes "list_" ++ resource_type) ∷ []
    ++ part_of (codes "ns_") namespace (codes "all_namespaces" ∷ [])
    ++ part_of (codes "sel_") selector [])

abbrev pub option_args : Str → Option Str → List Str → List Str
option_args flag none otherwise = otherwise
option_args flag (some []) otherwise = otherwise
option_args flag (some (c ∷ s)) otherwise = flag ∷ (c ∷ s) ∷ []

unfoldable pub list_args : Str → Option Str → Option Str → List Str
list_args resource_type namespace selector =
    codes "get" ∷ resource_type ∷ codes "-o" ∷ codes "json" ∷ []
    ++ option_args (codes "-n") namespace (codes "--all-namespaces" ∷ [])
    ++ option_args (codes "-l") selector []

module _ {A : Type 0} (run : List Str → Completed) (items_of : Str → List A) (context : Str) where
  -- `kubectl get`'s answer, and the cache behind it
  abbrev pub fetched :
      Bool
      → Bool
      → ℕ
      → Str
      → Completed
      → Dict Str (CacheFile (List A))
      → List A × Dict Str (CacheFile (List A))
  fetched use_cache writable now key result files =
      if result.succeeded
      then (
        items_of result.stdout,
        if use_cache
            then set_cached_data context writable now key (items_of result.stdout) files
            else files,
      )
      else ([], files)

  abbrev pub answered :
      Option (List A)
      → List A × Dict Str (CacheFile (List A))
      → Dict Str (CacheFile (List A))
      → List A × Dict Str (CacheFile (List A))
  answered none fresh files = fresh
  answered (some items) fresh files = (items, files)

  -- `list_resources` at the time `now`; a cached list counts also when it is empty
  unfoldable pub list_resources :
      Str
      → Option Str
      → Option Str
      → Bool
      → Bool
      → ℕ
      → Dict Str (CacheFile (List A))
      → List A × Dict Str (CacheFile (List A))
  unfolding get_cached_data set_cached_data list_cache_key list_args
  list_resources resource_type namespace selector use_cache writable now files =
      let key = list_cache_key resource_type namespace selector in
      answered (if use_cache then get_cached_data context now key files else none)
        (fetched use_cache writable now key
          (run (kubectl_command context (list_args resource_type namespace selector))) files)
        files

module _ {A : Type 0} (run : List Str → Completed) (object_of : Str → A) (context : Str) where
  -- `get_resource`
  abbrev pub get_resource : Str → Str → Str → Option A
  get_resource resource_type name namespace =
      let result = run (
        kubectl_command context (
          codes "get"
          ∷ resource_type
          ∷ name
          ∷ codes "-n"
          ∷ namespace
          ∷ codes "-o"
          ∷ codes "json"
          ∷ [])) in
      if result.succeeded then some (object_of result.stdout) else none

module _ (run : List Str → Completed) (context : Str) where
  -- `exec_pod`
  abbrev pub exec_pod : Str → Str → List Str → Completed
  exec_pod pod_name namespace command = run (
      kubectl_command context
        (codes "exec" ∷ pod_name ∷ codes "-n" ∷ namespace ∷ codes "--" ∷ command))

  -- `get_pod_logs`
  abbrev pub get_pod_logs : Str → Str → ℕ → Str
  get_pod_logs pod_name namespace tail =
      let result = run (
        kubectl_command context (
          codes "logs"
          ∷ pod_name
          ∷ codes "-n"
          ∷ namespace
          ∷ codes "--tail"
          ∷ show_nat tail
          ∷ [])) in
      if result.succeeded then result.stdout else []
