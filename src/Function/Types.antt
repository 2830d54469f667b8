-- ===== src/Function/Types.antt =====
-- The types of function-httptask/fn.go and of input/v1beta1/input.go.
use mathop_operator.Base.{ℕ, String, Bool, List, Option, Dict}
use mathop_operator.Base.Int.{ℤ}
use mathop_operator.Base.Result.{Result}
use mathop_operator.Json.{Json, Items, Fields}

pub record FieldMapping : Type 0 where
  pub source_task : String
  pub source_field : String
  pub target_field : String

-- `input` is the decoded map: each task is decoded anew, so nothing else reaches it.
pub record TaskSpec : Type 0 where
  pub name : String
  pub endpoint : String
  pub method : String
  pub headers : Dict String
  pub input : Fields
  pub input_from : List FieldMapping

-- `output` is a map on the heap, or a nil map.
pub record TaskStatus : Type 0 where
  pub name : String
  pub phase : String
  pub status_code : Option ℤ
  pub output : Option ℕ
  pub error : String

pub record Input : Type 0 where
  pub provider_config_name : String
  pub default_headers : Dict String

-- The fields that the program sets on a composed.Unstructured of kind DisposableRequest.
pub record DisposableRequest : Type 0 where
  pub api_version : String
  pub kind : String
  pub provider_config_name : String
  pub url : String
  pub method : String
  pub body : String
  pub headers : Dict (List String)

-- An observed composed resource, by the accessors that the program calls; `none` is their error.
pub record ObservedResource : Type 0 where
  pub get_string : String → Option String
  pub get_integer : String → Option ℤ
  pub get_value : String → Option Json

-- What the observed composite resource holds at the paths that the program reads. The tasks are
-- `none` where they are missing or no slice; a text that is missing reads as "".
pub record Composite : Type 0 where
  pub uid : String
  pub name : String
  pub notify_url : String
  pub raw_tasks : Option (List Json)

-- The answers of function-sdk-go and of encoding/json to one call of RunFunction.
pub record RunRequest : Type 0 where
  pub input : Result Input
  pub composite : Result Composite
  pub decode_tasks : List Json → Result (List TaskSpec)
  pub observed : Result (Dict ObservedResource)
  -- an error, and the resources that were set before it
  pub set_desired : Dict DisposableRequest → Option (String × Dict DisposableRequest)
  pub desired_composite : Result (Unit {0})
  pub set_composite : String → String → Items → Result (Unit {0})

-- The three fields that the program sets under `status` of the desired composite.
pub record CompositeStatus : Type 0 where
  pub transaction_id : String
  pub phase : String
  pub tasks : Items

pub record Condition : Type 0 where
  pub holds : Bool
  pub reason : String
  pub message : String

-- What a call adds to the response.
pub record Response : Type 0 where
  pub fatal : Option String
  pub desired : Dict DisposableRequest
  pub status : Option CompositeStatus
  pub condition : Option Condition
