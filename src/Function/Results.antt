-- ===== src/Function/Results.antt =====
-- What RunFunction of function-httptask/fn.go needs to have read where it ends without a fatal result.
use mathop_operator.Base.{◌≡◌, ◌≢◌, refl, List, [], ◌∷◌, Option, none, some, arith, Dict}
use mathop_operator.Base.Result.{Result, ok, err}
use mathop_operator.Json.{Json, Codec}
use mathop_operator.Function.Types.{
  TaskSpec, Input, ObservedResource, Composite, RunRequest, Response,
}
use mathop_operator.Function.Run.{
  run_tasks, run_raw, run_function, run_observed, run_decoded, run_composite, run_input,
}

-- A call that read all it needs: its input, the composite, and a list of tasks that is not empty.
pub record Started (codec : Codec) (req : RunRequest) (r : Response) : Type 0 where
  pub input : Input
  pub composite : Composite
  pub raw : List Json
  pub tasks : List TaskSpec
  pub observed : Dict ObservedResource
  pub has_input : req.input ≡ ok input
  pub has_composite : req.composite ≡ ok composite
  pub has_raw : composite.raw_tasks ≡ some raw
  pub some_raw : raw ≢ []
  pub decoded : req.decode_tasks raw ≡ ok tasks
  pub has_observed : req.observed ≡ ok observed
  pub runs : r ≡ run_tasks codec req input composite observed tasks

module _ (codec : Codec) (req : RunRequest) where
  module _ (i : Input) (has_i : req.input ≡ ok i) where
    module _ (xr : Composite) (has_xr : req.composite ≡ ok xr) where
      Started-observed :
          (js : List Json) (ts : List TaskSpec) (r : Result (Dict ObservedResource))
          → xr.raw_tasks ≡ some js
          → js ≢ []
          → req.decode_tasks js ≡ ok ts
          → req.observed ≡ r
          → (run_observed codec req i xr ts r).fatal ≡ none
          → Started codec req (run_observed codec req i xr ts r)
      unfolding run_observed
      Started-observed js ts (err e) raw some_js decoded has h = absurd (ground arith)
      Started-observed js ts (ok obs) raw some_js decoded has h = record {
        input = i;
        composite = xr;
        raw = js;
        tasks = ts;
        observed = obs;
        has_input = has_i;
        has_composite = has_xr;
        has_raw = raw;
        some_raw = some_js;
        decoded = decoded;
        has_observed = has;
        runs = refl;
      }

      Started-decoded :
          (js : List Json) (r : Result (List TaskSpec))
          → xr.raw_tasks ≡ some js
          → js ≢ []
          → req.decode_tasks js ≡ r
          → (run_decoded codec req i xr r).fatal ≡ none
          → Started codec req (run_decoded codec req i xr r)
      unfolding run_decoded
      Started-decoded js (err e) raw some_js has h = absurd (ground arith)
      Started-decoded js (ok ts) raw some_js has h =
          Started-observed js ts req.observed raw some_js has refl h

      Started-raw :
          (raw : Option (List Json))
          → xr.raw_tasks ≡ raw
          → (run_raw codec req i xr raw).fatal ≡ none
          → Started codec req (run_raw codec req i xr raw)
      unfolding run_raw
      Started-raw none has h = absurd (ground arith)
      Started-raw (some []) has h = absurd (ground arith)
      Started-raw (some (j ∷ js)) has h =
          Started-decoded (j ∷ js) (req.decode_tasks (j ∷ js)) has (λ e. cc) refl h

    Started-composite :
        (r : Result Composite)
        → req.composite ≡ r
        → (run_composite codec req i r).fatal ≡ none
        → Started codec req (run_composite codec req i r)
    unfolding run_composite
    Started-composite (err e) has h = absurd (ground arith)
    Started-composite (ok xr) has h = Started-raw xr has xr.raw_tasks refl h

  Started-input :
      (r : Result Input)
      → req.input ≡ r
      → (run_input codec req r).fatal ≡ none
      → Started codec req (run_input codec req r)
  unfolding run_input
  Started-input (err e) has h = absurd (ground arith)
  Started-input (ok i) has h = Started-composite i has req.composite refl h

  -- A call without a fatal result has read its input, the composite, a list of tasks that is not
  -- empty and decodes, and the observed resources; it answers what the loop over those tasks gives.
  pub run_function-Started :
      (run_function codec req).fatal ≡ none → Started codec req (run_function codec req)
  unfolding run_function
  run_function-Started h = Started-input req.input refl h
