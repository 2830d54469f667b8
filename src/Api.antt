-- ===== src/Api.antt =====
-- The resource types of api/v1alpha1, with the parts of their metadata that the controllers read.
use mathop_operator.Base.{ℕ, String, Bool, List, Option, Dict}
use mathop_operator.Base.Int.{ℤ}

-- metav1.ObjectMeta; `deleting` is `!DeletionTimestamp.IsZero()`.
pub record ObjectMeta : Type 0 where
  pub namespace : String
  pub name : String
  pub uid : String
  pub generation : ℕ
  pub deleting : Bool
  pub finalizers : List String

-- metav1.Condition
pub record Condition : Type 0 where
  pub kind : String
  pub status : String
  pub reason : String
  pub message : String
  pub observed_generation : ℕ

pub record SourceReference : Type 0 where
  pub api_version : String
  pub kind : String
  pub name : String

pub record FieldMapping : Type 0 where
  pub source_ref : SourceReference
  pub source_field : String
  pub target_field : String

-- `input` is the raw text; "" where there is none.
pub record HttpTaskSpec : Type 0 where
  pub endpoint : String
  pub method : String
  pub headers : Dict String
  pub input : String
  pub input_from : List FieldMapping

pub record HttpTaskStatus : Type 0 where
  pub output : String
  pub status_code : Option ℤ
  pub observed_input_hash : String
  pub conditions : List Condition

pub record HttpTask : Type 0 where
  pub meta : ObjectMeta
  pub spec : HttpTaskSpec
  pub status : HttpTaskStatus

pub record WorkflowFieldMapping : Type 0 where
  pub source_step : String
  pub source_field : String
  pub target_field : String

pub record WorkflowTaskSpec : Type 0 where
  pub name : String
  pub endpoint : String
  pub method : String
  pub headers : Dict String
  pub input : String
  pub input_from : List WorkflowFieldMapping

pub record WorkflowSpec : Type 0 where
  pub tasks : List WorkflowTaskSpec
  pub notify_url : String

pub record WorkflowTaskStatus : Type 0 where
  pub name : String
  pub phase : String
  pub status_code : Option ℤ
  pub output : String
  pub error : String

pub record WorkflowStatus : Type 0 where
  pub transaction_id : String
  pub dashboard_url : String
  pub phase : String
  pub tasks : List WorkflowTaskStatus
  pub notified_phase : String
  pub conditions : List Condition

pub record Workflow : Type 0 where
  pub meta : ObjectMeta
  pub spec : WorkflowSpec
  pub status : WorkflowStatus

-- AddSpec and AddStatus
pub record OperandsSpec : Type 0 where
  pub x : ℤ
  pub y : ℤ

pub record ResultStatus : Type 0 where
  pub result : Option ℤ
  pub conditions : List Condition

-- Add
pub record Operands : Type 0 where
  pub meta : ObjectMeta
  pub spec : OperandsSpec
  pub status : ResultStatus

pub record Square : Type 0 where
  pub meta : ObjectMeta
  pub source_ref : SourceReference
  pub status : ResultStatus

-- SchemeGroupVersion.String(), of groupversion_info.go
abbrev pub scheme_group_version : String
scheme_group_version = "math.example.com/v1alpha1"

-- SubtractSpec, SubtractStatus and Subtract have the fields of those of Add.
abbrev pub SubtractSpec : Type 0
SubtractSpec = OperandsSpec

abbrev pub SubtractStatus : Type 0
SubtractStatus = ResultStatus

abbrev pub Subtract : Type 0
Subtract = Operands
