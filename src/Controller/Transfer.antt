-- ===== src/Controller/Transfer.antt =====
-- FetchTaskResult and DynamicWatcher of internal/controller/task_transfer.go.
pub mod Watches
use mathop_operator.Base.{
  String, Bool, false, ◌&&◌, ◌||◌, List, [], ◌∷◌, Option, none, some, ◌==◌, if◌then◌else◌,
}
use mathop_operator.Base.Int.{ℤ}
use mathop_operator.Base.Text.{◌<>◌}
use mathop_operator.Base.Result.{Result, ok, err}
use mathop_operator.Controller.Platform.{NamespacedName, Fetch, found, not_found, failed}

-- schema.GroupVersionKind
pub record GroupVersionKind : Type 0 where
  pub group : String
  pub version : String
  pub kind : String

abbrev pub gvk_eq : GroupVersionKind → GroupVersionKind → Bool
gvk_eq a b = (a.group == b.group) && (a.version == b.version) && (a.kind == b.kind)

-- status.result of an unstructured object, by unstructured.NestedInt64: missing, or an error.
pub data NestedResult : Type 0 where
  value : ℤ → NestedResult
  missing : NestedResult
  not_integer : String → NestedResult

-- schema.ParseGroupVersion (the group and the version), the cluster's objects of any kind by the
-- result in their status, the REST mapper and the controller's Watch.
pub record Cluster : Type 0 where
  pub parse_group_version : String → Result (String × String)
  pub get_result : GroupVersionKind → NamespacedName → Fetch NestedResult
  pub rest_mapping : GroupVersionKind → Option String
  pub watch : GroupVersionKind → Option String

-- (value, found, error); `absent` is an error that client.IgnoreNotFound drops.
pub data TaskResult : Type 0 where
  value : ℤ → TaskResult
  pending : TaskResult
  absent : TaskResult
  failing : String → TaskResult

-- The kinds that a watcher takes for watched.
abbrev pub Seen : Type 0
Seen = List GroupVersionKind

unfoldable pub is_seen : GroupVersionKind → Seen → Bool
is_seen gvk [] = false
is_seen gvk (g ∷ gs) = gvk_eq g gvk || is_seen gvk gs

module _ (c : Cluster) where
  abbrev pub parse_gvk : String → String → Result GroupVersionKind
  parse_gvk api_version kind = elim (c.parse_group_version api_version) [
    | err e ↦ err e
    | ok (group, version) ↦ ok (record { group = group; version = version; kind = kind })
  ]

  unfoldable pub read_nested : String → String → Fetch NestedResult → TaskResult
  read_nested kind name not_found = absent
  read_nested kind name (failed e) = failing e
  read_nested kind name (found (NestedResult.value n)) = TaskResult.value n
  read_nested kind name (found missing) = pending
  read_nested kind name (found (not_integer e)) =
      failing ("status.result on " <> kind <> "/" <> name <> " is not an integer: " <> e)

  -- FetchTaskResult
  unfoldable pub fetch_task_result :
      (String → String) → String → String → String → String → TaskResult
  unfolding read_nested
  fetch_task_result quote namespace api_version kind name = elim (parse_gvk api_version kind) [
    | err e ↦ failing ("invalid apiVersion " <> quote api_version <> ": " <> e)
    | ok gvk ↦
        read_nested kind name (c.get_result gvk (record { namespace = namespace; name = name }))
  ]

  -- Ensure: its error, the kinds seen after it, and the watches that it asked for. After Watch:
  unfoldable pub after_watch :
      GroupVersionKind → Seen → Option String → Option String × Seen × List GroupVersionKind
  after_watch gvk seen (some e) = (some e, seen, gvk ∷ [])
  after_watch gvk seen none = (none, gvk ∷ seen, gvk ∷ [])

  -- After RESTMapping.
  unfoldable pub after_mapping :
      GroupVersionKind → Seen → Option String → Option String × Seen × List GroupVersionKind
  unfolding after_watch
  after_mapping gvk seen (some e) = (some ("kind not found on cluster: " <> e), seen, [])
  after_mapping gvk seen none = after_watch gvk seen (c.watch gvk)

  unfoldable pub ensure : GroupVersionKind → Seen → Option String × Seen × List GroupVersionKind
  unfolding is_seen after_mapping
  ensure gvk seen =
      if is_seen gvk seen then (none, seen, []) else after_mapping gvk seen (c.rest_mapping gvk)
