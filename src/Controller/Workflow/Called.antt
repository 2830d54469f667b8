-- ===== src/Controller/Workflow/Called.antt =====
-- A child of a step that its own reconciler, of internal/controller/httptask_controller.go, has brought to
-- rest after it called the endpoint of the step.
use mathop_operator.Base.{
  ℕ, suc, String, ◌≡◌, true, false, some, ap, ◌∙◌, [], ◌∷◌, if◌then◌else◌, ◌==◌,
}
use mathop_operator.Base.Int.{ℤ}
use mathop_operator.Base.Result.{ok}
use mathop_operator.Json.{Codec}
use mathop_operator.Api.{HttpTask, HttpTaskSpec, Workflow, WorkflowTaskSpec}
use mathop_operator.Controller.Platform.{
  Environment, Helpers, Trace, NamespacedName, HttpRequest, status_updated,
}
use mathop_operator.Controller.Merge.{Body, body_json, merged, initial_body, merge_inputs}
use mathop_operator.Controller.HttpTask.{is_current, task_in_use_finalizer, request_for}
use mathop_operator.Controller.HttpTask.Records.{marks}
use mathop_operator.Controller.HttpTask.Converges.{Serves, current, repeated}
use mathop_operator.Controller.Workflow.{child_spec, status_of_child}
use mathop_operator.Controller.Workflow.Children.{SetsReady, reported, is_2xx, step_follows_call}

-- The request of a step with a body.
abbrev pub step_request : WorkflowTaskSpec → String → HttpRequest
step_request step body = record {
  method = if step.method == "" then "POST" else step.method;
  url = step.endpoint;
  headers = ("Content-Type", "application/json") ∷ step.headers;
  body = body;
}

-- A live, protected task with the spec of the step, its sources standing still and its body not the
-- recorded one, on a server that accepts and holds what is written; the endpoint answered the step's
-- request with a code and a text, and the child is what any number of reconciles left of the task.
pub record Called (codec : Codec) (lib : Helpers) (wf : Workflow) (step : WorkflowTaskSpec)
    (child : HttpTask) (code : ℤ) (text : String) : Type 0 where
  pub env : Environment HttpTask
  pub key : NamespacedName
  pub initial : HttpTask
  pub start : Body
  pub body : Body
  pub more : ℕ
  pub specified : initial.spec ≡ child_spec wf step
  pub serves : Serves env key initial
  pub live : initial.meta.deleting ≡ false
  pub protected : lib.contains_finalizer initial.meta.finalizers task_in_use_finalizer ≡ true
  pub has_input : initial_body codec initial.spec.input ≡ some start
  pub steady :
      (tr : Trace HttpTask)
      → merge_inputs codec env initial.meta.namespace tr initial.spec.input_from start ≡ merged body
  pub changed : is_current codec lib env initial body ≡ false
  pub answered :
      env.send
        (status_updated (marks codec lib env initial) ∷ [])
        (step_request step (codec.encode (body_json body)))
      ≡ ok (record { status_code = code; body = ok text })
  pub rests : child ≡ current initial (repeated codec lib env key (suc more) [])

module _ (codec : Codec) (lib : Helpers) (sets : SetsReady lib) where
  -- The request that the reconciler sends for a task with the spec of a step is that of the step.
  request_of_step :
      (env : Environment HttpTask) (wf : Workflow) (step : WorkflowTaskSpec) (task : HttpTask)
      (body : String)
      → task.spec ≡ child_spec wf step
      → request_for codec lib env (marks codec lib env task) body ≡ step_request step body
  unfolding child_spec
  request_of_step env wf step task body e =
      let build : HttpTaskSpec → HttpRequest = λ sp. record {
        method = if sp.method == "" then "POST" else sp.method;
        url = sp.endpoint;
        headers = ("Content-Type", "application/json") ∷ sp.headers;
        body = body;
      } in
      ap build e

  pub Called-reported :
      {wf : Workflow} {step : WorkflowTaskSpec} {child : HttpTask} {code : ℤ} {text : String}
      → Called codec lib wf step child code text
      → status_of_child step child ≡ reported step (is_2xx code) code text
  Called-reported {wf} {step} {child} {code} {text} c =
      ap (status_of_child step) c.rests
      ∙ step_follows_call codec lib c.env sets c.key c.initial c.start c.body c.serves c.live
          c.protected c.has_input c.steady c.changed code text
          (ap (c.env.send (status_updated (marks codec lib c.env c.initial) ∷ [])) (
              request_of_step c.env wf step c.initial (codec.encode (body_json c.body)) c.specified)
            ∙ c.answered)
          step c.more
