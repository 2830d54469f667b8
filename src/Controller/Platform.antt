-- ===== src/Controller/Platform.antt =====
-- What the reconcilers of internal/controller call and do not implement: the API server, the HTTP
-- client, and helpers of apimachinery and controller-runtime. A call's answer may depend on all
-- that was done before it, so an environment can show every order of successes and failures.
use mathop_operator.Base.{ℕ, String, Bool, List, Option, none, some, Dict}
use mathop_operator.Base.Int.{ℤ}
use mathop_operator.Base.Result.{Result}
use mathop_operator.Api.{Condition}

-- types.NamespacedName
pub record NamespacedName : Type 0 where
  pub namespace : String
  pub name : String

-- The headers are the calls of Header.Set, in their order.
pub record HttpRequest : Type 0 where
  pub method : String
  pub url : String
  pub headers : Dict String
  pub body : String

-- `body` is what io.ReadAll gives.
pub record HttpResponse : Type 0 where
  pub status_code : ℤ
  pub body : Result String

-- An API call that reads an object.
pub data Fetch (A : Type 0) : Type 0 where
  found : A → Fetch A
  not_found : Fetch A
  failed : String → Fetch A

-- What a reconciler does to the world, in order; the last is the first of the list.
pub data Effect (A : Type 0) : Type 0 where
  updated : A → Effect A
  status_updated : A → Effect A
  sent : HttpRequest → Effect A

abbrev pub Trace : Type 0 → Type 0
Trace A = List (Effect A)

-- The answers to a reconciler of objects `A`. An update answers with the object as the server
-- holds it, which replaces the caller's.
pub record Environment (A : Type 0) : Type 0 where
  pub get : Trace A → NamespacedName → Fetch A
  pub update : Trace A → A → Result A
  pub update_status : Trace A → A → Result A
  -- List with client.InNamespace and client.MatchingFields at one field index
  pub list_by_index : Trace A → String → String → Result (List A)
  -- http.NewRequestWithContext: its error
  pub check_request : String → String → Option String
  pub send : Trace A → HttpRequest → Result HttpResponse

-- meta.SetStatusCondition, and controllerutil's functions on finalizers.
pub record Helpers : Type 0 where
  pub set_status_condition : Condition → List Condition → List Condition
  pub contains_finalizer : List String → String → Bool
  pub add_finalizer : String → List String → List String
  pub remove_finalizer : String → List String → List String

-- ctrl.Result with the error beside it; no delay is 0.
pub record Reconciled : Type 0 where
  pub requeue_after_seconds : ℕ
  pub error : Option String

abbrev pub done : Reconciled
done = record { requeue_after_seconds = 0; error = none }

abbrev pub requeue_after : ℕ → Reconciled
requeue_after n = record { requeue_after_seconds = n; error = none }

abbrev pub with_error : String → Reconciled
with_error e = record { requeue_after_seconds = 0; error = some e }
