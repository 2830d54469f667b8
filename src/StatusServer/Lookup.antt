-- ===== src/StatusServer/Lookup.antt =====
-- Which workflow the status server of internal/statusserver/server.go finds, by the index that
-- WorkflowReconciler.SetupWithManager of internal/controller/workflow_controller.go registers.
use mathop_operator.Base.{
  String, List, [], ◌∷◌, ◌≡◌, ◌≢◌, ◌⊎◌, inl, inr, refl, true, eq-cases, eq_iff, arith, contains,
  ◌↔◌, sym, ◌∙◌, Bool, false, ap,
}
use mathlib.Core.List.{Memᴰ}
use mathlib.Core.List.Memᴰ
use mathop_operator.Base.Result.{ok, err}
use mathop_operator.Base.Text.{◌<>◌, has_prefix}
use mathop_operator.StatusServer.Routes.{serve-routes}
use mathop_operator.Api.{Workflow}
use mathop_operator.Controller.Setup.{workflow_index_values}
use mathop_operator.Controller.Index.Listing.{Lists}
use mathop_operator.StatusServer.{
  Backend, json, http_error, lookup_workflow, first_of_list, json_reply, Signal, serve,
}

-- A workflow stands in the index under its transaction, unless it has none.
indexed_iff :
    (t : String) (wf : Workflow)
    → (contains t (workflow_index_values wf) ≡ true) ↔ ((wf.status.transaction_id ≡ t) × (t ≢ ""))
unfolding workflow_index_values
indexed_iff t wf = elim (eq-cases wf.status.transaction_id "") [
  | inl e ↦ rw e.0 ((λ h. cc), (λ h. absurd (h.1 (sym h.0 ∙ e.1))))
  | inr e ↦ rw e.0 (
    (λ h.
        let same : wf.status.transaction_id ≡ t =
          ground (arith, eq_iff wf.status.transaction_id t) in
        (same, (λ blank. e.1 (same ∙ blank)))),
    (λ h. let same = h.0 in ground (arith, eq_iff wf.status.transaction_id t)),
  )
]

module _ (store : List Workflow) (b : Backend)
    (lists : Lists (λ wf. Memᴰ wf store) workflow_index_values b.list_by_transaction) where
  found_cases :
      (t : String) (items : List Workflow)
      → b.list_by_transaction t ≡ ok items
      → ((wf : Workflow) × Memᴰ wf store
          × (wf.status.transaction_id ≡ t)
          × (lookup_workflow b t ≡ ok wf))
        ⊎ (((wf : Workflow) → Memᴰ wf store → wf.status.transaction_id ≡ t → t ≡ "")
            × (lookup_workflow b t ≡ err "not found"))
  unfolding lookup_workflow first_of_list
  found_cases t [] listed = inr (
    (λ wf stored same. elim (eq-cases t "") [
      | inl e ↦ e.1
      | inr e ↦
          absurd
            (Memᴰ.not-nil (lists.complete t [] listed wf stored ((indexed_iff t wf).1 (same, e.1))))
    ]),
    rw listed refl,
  )
  found_cases t (wf ∷ rest) listed =
      let at = lists.sound t (wf ∷ rest) listed wf (Memᴰ.head refl) in
      inl (wf, at.0, ((indexed_iff t wf).0 at.1).0, rw listed refl)

  -- Where the list of the index is answered, a request for the JSON of a transaction whose id does not
  -- begin with stream/ gets the status of a stored workflow with that transaction, or 404 where the
  -- store has no workflow with it, the blank transaction of workflows that have not run yet aside.
  pub serve-stored :
      (flushes : Bool) (signals : List Signal) (t : String) (items : List Workflow)
      → has_prefix "stream/" t ≡ false
      → b.list_by_transaction t ≡ ok items
      → ((wf : Workflow) × Memᴰ wf store
          × (wf.status.transaction_id ≡ t)
          × (serve b flushes ("/api/workflows/" <> t) signals ≡ json (b.marshal_status wf.status)))
        ⊎ (((wf : Workflow) → Memᴰ wf store → wf.status.transaction_id ≡ t → t ≡ "")
            × (serve b flushes ("/api/workflows/" <> t) signals
                ≡ http_error "no workflow found with that transaction id" 404))
  serve-stored flushes signals t items no_stream listed =
      let routed = (serve-routes b flushes signals t).2 no_stream in
      elim (found_cases t items listed) [
        | inl (wf, stored, same, e) ↦ inl (wf, stored, same, routed ∙ ap (json_reply b) e)
        | inr (none_stored, e) ↦ inr (none_stored, routed ∙ ap (json_reply b) e)
      ]
