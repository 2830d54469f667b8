-- ===== src/Controller/Workflow/Children.antt =====
-- A step of a Workflow and its child: what status_of_child of internal/controller/workflow_controller.go
-- makes of an HTTPTask that its own reconciler, of internal/controller/httptask_controller.go, has settled.
use mathop_operator.Base.{
  Bool, not, ◌||◌, ℕ, suc, String, ◌≡◌, true, false, some, ap, ◌∙◌, List, [], ◌∷◌, refl, Bool-cases,
  inl, inr, if◌then◌else◌, Option, Bool,
}
use mathop_operator.Base.Int.{ℤ, pos, ltb_ℤ, leb_ℤ, to_int32}
use mathop_operator.Base.Text.{◌<>◌, show_ℤ}
use mathop_operator.Base.Result.{ok}
use mathop_operator.Json.{Codec}
use mathop_operator.Api.{Condition, HttpTask, WorkflowTaskSpec, WorkflowTaskStatus}
use mathop_operator.Controller.Platform.{
  Environment, Helpers, Trace, NamespacedName, status_updated,
}
use mathop_operator.Controller.Merge.{Body, body_json, merged, initial_body, merge_inputs}
use mathop_operator.Controller.HttpTask.{
  record_response, ready_condition, with_condition, is_current, is_success, task_in_use_finalizer,
  request_for,
}
use mathop_operator.Controller.HttpTask.Repeats.{hash_of}
use mathop_operator.Controller.HttpTask.Records.{marks, answered, reconcile_records}
use mathop_operator.Controller.HttpTask.Converges.{Serves, current, repeated, repeated-settles}
use mathop_operator.Controller.Workflow.{find_ready_condition, phase_of_condition, status_of_child}

-- meta.SetStatusCondition: the condition of the type is then the one that was set.
abbrev pub SetsReady : Helpers → Type 0
SetsReady lib =
    (c : Condition) (cs : List Condition)
    → c.kind ≡ "Ready"
    → find_ready_condition (lib.set_status_condition c cs) ≡ some c

abbrev pub is_2xx : ℤ → Bool
is_2xx code = not (ltb_ℤ code (pos 200) || leb_ℤ (pos 300) code)

-- What a step reports of a child whose endpoint answered with a code and a text.
abbrev pub reported : WorkflowTaskSpec → Bool → ℤ → String → WorkflowTaskStatus
reported step success code text = record {
  name = step.name;
  phase = if success then "Succeeded" else "Failed";
  status_code = some (to_int32 code);
  output = text;
  error =
      if success
      then ""
      else "NonSuccessStatus" <> ": " <> ("endpoint returned HTTP " <> show_ℤ code);
}

module _ (codec : Codec) (lib : Helpers) (env : Environment HttpTask) (sets : SetsReady lib) where
  abbrev status_by : WorkflowTaskSpec → HttpTask → Option Condition → WorkflowTaskStatus
  status_by step task o = record {
    name = step.name;
    phase = (phase_of_condition o).0;
    status_code = task.status.status_code;
    output = task.status.output;
    error = (phase_of_condition o).1;
  }

  status_of_conditioned :
      (step : WorkflowTaskSpec) (task : HttpTask) (status reason message : String)
      → status_of_child step (with_condition codec lib env task status reason message)
        ≡ status_by step task (some (ready_condition codec lib env task status reason message))
  status_of_conditioned step task status reason message =
      ap (status_by step task) (
        sets (ready_condition codec lib env task status reason message) task.status.conditions refl)

  status_of_recorded :
      (step : WorkflowTaskSpec) (task : HttpTask) (hash : String) (code : ℤ) (text : String)
      → status_of_child step (record_response codec lib env task hash code text)
        ≡ reported step (is_success codec lib env code) code text
  unfolding record_response phase_of_condition
  status_of_recorded step task hash code text =
      let s = task.status in
      let answered : HttpTask = record task {
        status = record s {
          status_code = some (to_int32 code);
          output = text;
          observed_input_hash = hash;
        };
      } in
      elim (Bool-cases (is_success codec lib env code)) [
        | inl e ↦ rw e (status_of_conditioned step answered "True" "Computed" _)
        | inr e ↦ rw e (status_of_conditioned step answered "False" "NonSuccessStatus" _)
      ]

  -- However often a live, protected child of a step, with a body that is not the recorded one, is
  -- reconciled by its own reconciler, its sources standing still, the endpoint answering with a body and
  -- the server holding what was written, the step reports the answer to the first call, where
  -- SetStatusCondition sets what it is given: success exactly for a code of 2xx, with the code as int32
  -- and with the text of the answer.
  pub step_follows_call :
      (key : NamespacedName) (initial : HttpTask) (start body : Body)
      → Serves env key initial
      → initial.meta.deleting ≡ false
      → lib.contains_finalizer initial.meta.finalizers task_in_use_finalizer ≡ true
      → initial_body codec initial.spec.input ≡ some start
      → ((tr : Trace HttpTask)
          → merge_inputs codec env initial.meta.namespace tr initial.spec.input_from start
            ≡ merged body)
      → is_current codec lib env initial body ≡ false
      → (code : ℤ) (text : String)
      → env.send
          (status_updated (marks codec lib env initial) ∷ [])
          (request_for codec lib env (marks codec lib env initial) (codec.encode (body_json body)))
        ≡ ok (record { status_code = code; body = ok text })
      → (step : WorkflowTaskSpec) (n : ℕ)
      → status_of_child step (current initial (repeated codec lib env key (suc n) []))
        ≡ reported step (is_success codec lib env code) code text
  step_follows_call key initial start body serves live protected has_input steady changed code text
        got step n =
      let marked = marks codec lib env initial in
      let settled =
        (repeated-settles codec lib env key initial start body serves live protected has_input
          steady n).0 in
      let first =
        reconcile_records codec lib env key [] initial marked start body (serves.holds []) live
          protected has_input (steady []) changed (serves.stores [] marked) serves.checks in
      ap (λ tr. status_of_child step (current initial tr)) (settled ∙ first)
      ∙ ap
          (λ r. status_of_child step (answered codec lib env marked (hash_of codec lib env body) r))
          got
      ∙ status_of_recorded step marked (hash_of codec lib env body) code text
