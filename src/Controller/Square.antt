-- ===== src/Controller/Square.antt =====
-- SquareReconciler of internal/controller/square_controller.go.
pub mod Outcomes
pub mod Chain
use mathop_operator.Base.{String, List, [], ◌∷◌, map, Option, none, some, ◌==◌, if◌then◌else◌}
use mathop_operator.Base.Int.{ℤ, ◌*ℤ◌, to_int32, to_int64}
use mathop_operator.Base.Text.{◌<>◌, show_ℤ}
use mathop_operator.Base.Result.{Result, ok, err}
use mathop_operator.Api.{SourceReference, Square}
use mathop_operator.Controller.Platform.{
  NamespacedName, Fetch, found, not_found, failed, status_updated, Trace, Helpers, Reconciled, done,
  with_error,
}
use mathop_operator.Controller.Index.{index_value_of}
use mathop_operator.Controller.Operands.{is_stale}
use mathop_operator.Controller.Transfer.{
  GroupVersionKind, Cluster, TaskResult, value, pending, absent, failing, parse_gvk,
  fetch_task_result, ensure,
}

-- The API server for Squares, the texts of a kind and of an absent object, and the verb %q.
pub record Server : Type 0 where
  pub get : Trace Square → NamespacedName → Fetch Square
  pub update_status : Trace Square → Square → Result Square
  pub list_by_index : Trace Square → String → String → Result (List Square)
  pub gvk_string : GroupVersionKind → String
  pub not_found_error : String → String
  pub quote : String → String

-- What a reconcile leaves: its result, the effects, and the kinds that are watched.
abbrev pub Run : Type 0
Run = Reconciled × Trace Square × List GroupVersionKind

-- int32(sum * sum), the product being of int64.
unfoldable pub square_int32 : ℤ → ℤ
square_int32 sum = to_int32 (to_int64 (sum *ℤ sum))

-- The function that SetupWithManager registers for Squares.
unfoldable pub square_index_values : Square → List String
square_index_values sq = if sq.source_ref.name == "" then [] else index_value_of sq.source_ref ∷ []

module _ (lib : Helpers) (server : Server) (cluster : Cluster) where
  open lib use {set_status_condition}
  open server use {quote, gvk_string}

  unfoldable pub with_condition : Square → String → String → String → Square
  with_condition sq status reason message =
      let st = sq.status in
      record sq {
        status = record st {
          conditions =
              set_status_condition
                (record {
                  kind = "Ready";
                  status = status;
                  reason = reason;
                  message = message;
                  observed_generation = sq.meta.generation;
                })
                st.conditions;
        };
      }

  abbrev returned : Result Square → Reconciled
  returned (ok _) = done
  returned (err e) = with_error e

  -- A condition that is written, the error of the update being returned.
  abbrev report : Square → String → String → Trace Square → Reconciled × Trace Square
  report sq reason message tr =
      let sq' = with_condition sq "False" reason message in
      (returned (server.update_status tr sq'), status_updated sq' ∷ tr)

  -- A condition that is written, the error of the update being dropped.
  abbrev report_source_error :
      Square → String → Reconciled → Trace Square → Reconciled × Trace Square
  report_source_error sq e result tr =
      let ref = sq.source_ref in
      let message = "referenced " <> ref.kind <> " " <> quote ref.name <> " not found: " <> e in
      (result, status_updated (with_condition sq "False" "SourceNotFound" message) ∷ tr)

  unfoldable pub store_square : Square → ℤ → Trace Square → Reconciled × Trace Square
  unfolding with_condition
  store_square sq sum tr =
      let result = square_int32 sum in
      let st = sq.status in
      let sq' : Square = record sq { status = record st { result = some result } } in
      let sq'' = with_condition sq' "True" "Computed" (show_ℤ sum <> "^2 = " <> show_ℤ result) in
      if is_stale sq.status.result result
      then (returned (server.update_status tr sq''), status_updated sq'' ∷ tr)
      else (done, tr)

  -- After FetchTaskResult.
  unfoldable pub transfer : Square → TaskResult → Trace Square → Reconciled × Trace Square
  unfolding store_square with_condition
  transfer sq absent tr = report_source_error sq (server.not_found_error sq.source_ref.name) done tr
  transfer sq (failing e) tr = report_source_error sq e (with_error e) tr
  transfer sq pending tr =
      report sq "WaitingOnSource"
        (sq.source_ref.kind
          <> " "
          <> quote sq.source_ref.name
          <> " has not produced status.result yet")
        tr
  transfer sq (value sum) tr = store_square sq sum tr

  abbrev with_seen : Reconciled × Trace Square → List GroupVersionKind → Run
  with_seen (r, tr) seen = (r, tr, seen)

  -- After watcher.Ensure.
  unfoldable pub after_ensure :
      Square → GroupVersionKind → Option String → List GroupVersionKind → Trace Square → Run
  unfolding transfer with_condition
  after_ensure sq gvk (some e) seen tr =
      with_seen
        (report sq "SourceKindUnavailable" ("cannot watch " <> gvk_string gvk <> ": " <> e) tr) seen
  after_ensure sq gvk none seen tr =
      let ref = sq.source_ref in
      with_seen
        (transfer sq
          (fetch_task_result cluster quote sq.meta.namespace ref.api_version ref.kind ref.name) tr)
        seen

  -- After schema.ParseGroupVersion.
  unfoldable pub after_parse :
      Square → Result GroupVersionKind → List GroupVersionKind → Trace Square → Run
  unfolding after_ensure with_condition
  after_parse sq (err e) seen tr =
      with_seen
        (report sq "InvalidSourceRef"
          ("invalid apiVersion " <> quote sq.source_ref.api_version <> ": " <> e) tr)
        seen
  after_parse sq (ok gvk) seen tr =
      let (error, seen', _) = ensure cluster gvk seen in after_ensure sq gvk error seen' tr

  unfoldable pub after_get : Fetch Square → List GroupVersionKind → Trace Square → Run
  unfolding after_parse
  after_get not_found seen tr = (done, tr, seen)
  after_get (failed e) seen tr = (with_error e, tr, seen)
  after_get (found sq) seen tr =
      after_parse sq (parse_gvk cluster sq.source_ref.api_version sq.source_ref.kind) seen tr

  -- Reconcile
  unfoldable pub reconcile : NamespacedName → List GroupVersionKind → Trace Square → Run
  unfolding after_get
  reconcile key seen tr = after_get (server.get tr key) seen tr

  abbrev square_key : Square → NamespacedName
  square_key sq = record { namespace = sq.meta.namespace; name = sq.meta.name }

  -- findSquaresForSource
  unfoldable pub find_squares_for_source :
      Trace Square → String → SourceReference → List NamespacedName
  find_squares_for_source tr namespace source =
      elim (server.list_by_index tr namespace (index_value_of source)) [
        | err e ↦ []
        | ok items ↦ map square_key items
      ]
