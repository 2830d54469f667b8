-- ===== src/Lib.antt =====
-- A verification of mathop-operator: a Kubernetes operator for arithmetic and HTTP tasks, a
-- Crossplane function that runs workflows of HTTP tasks, a status server and a progress watcher.
--
-- The parts and their files:
--   Function      function-httptask/fn.go and input/v1beta1/input.go. RunFunction reads a list of
--                 tasks, goes through it once and answers with the requests that should exist, a
--                 status for each task, a phase and a condition. Function/Types has the structs,
--                 Heap the maps as objects with getJSONField and setJSONField, Request
--                 buildDisposableRequest, Observed taskStatusFromObserved, Loop the loop over the
--                 tasks with depsReady and allDone, Report buildNotifyRequest and
--                 toUnstructuredSlice, Run the rest of RunFunction. Outcome, Statuses, Shapes,
--                 Positions, Gating, Requests, Phases, Results, Answers, Notify, Reading, Sharing,
--                 Marshal, Ordered, Acyclic and Marshalled hold the proofs. Cli is function-httptask/main.go.
--   Json          the dynamic values of encoding/json as trees; Json/Paths is
--                 internal/controller/jsonpath.go.
--   Api           api/v1alpha1, with the metadata that the controllers read.
--   Controller    internal/controller. Platform is the API server and the HTTP client, Index
--                 sourceRefIndexValue, the index over HTTPTasks, findDependentTasks and
--                 task_refcheck.go, Merge the request body of httptask_controller.go
--                 and HttpTask the rest of it, Workflow
--                 workflow_controller.go, Operands add_controller.go, subtract_controller.go and
--                 refcheck.go, Transfer task_transfer.go, Square square_controller.go, Setup the
--                 SetupWithManager functions with the index over Workflows. Their children hold the
--                 proofs; Index/Listing states what the client's List at an index documents,
--                 and Index/Separation tells index values apart.
--   StatusServer  internal/statusserver/server.go: the handlers, the patterns of the ServeMux and
--                 Start. Routes, Lookup and Stream hold the proofs.
--   Watcher       function-httptask/watcher/main.go, its tables as lists of rows: Startup is main
--                 up to the informer, Events the event handler. Rows, Statements, Tables and Progress
--                 hold the proofs.
--   Manager       cmd/main.go: the flags, the options and the calls that set the manager up.
--                 Options and Startup hold the proofs.
--   Base          shared tests, lists, dictionaries, integers, texts and results.
--   Examples      concrete workflows, tasks and answers, with the results below at work on them.
--
-- How they interact: a Workflow's reconciler makes one HTTPTask for each step and reads its Ready
-- condition; an HTTPTask reads the outputs of the tasks that it names as sources, and its field index
-- tells which tasks to look at again when an output changes, and whether a task may be deleted; a
-- Square reads the result of an Add or a Subtract in the same way. Controller/Workflow/Children,
-- Called and Composed, and Controller/Square/Chain, put two reconcilers together, on servers that hold
-- what was written last and that the Converges modules run again and again. The status server and the
-- watcher read the status that the reconciler or the function wrote. The manager registers the index
-- functions under whose keys the reconcilers and the status server list objects; what a list at an
-- index answers is a hypothesis, as the client documents it, on a store of objects.
--
-- How code became definitions: a handler is cut at every call that can fail, and each piece is a
-- function by clauses on the answer (after_get, after_update, run_observed), named for what it comes
-- after. A reconciler takes an environment, which answers each call by the trace of the effects before
-- it, and gives its result with the trace; so a theorem on all environments speaks of every order of
-- successes and failures. The int32 and int64 conversions wrap around as they are written.
--
-- Fuel: json.Marshal of a map on the heap is bounded by the number of maps. A walk that enters more maps
-- than there are has entered one inside itself, and there json.Marshal gives its error on a cycle, which
-- is what the bound gives. Every other definition is structural.
--
-- Parameters: the Kubernetes client, controllerutil, apimachinery's conditions, the REST mapper, the
-- HTTP client, the manager of controller-runtime, client-go, function-sdk-go, the texts of
-- encoding/json, sha256, the verb %q and the connection pool are arguments. In Controller/Merge a body
-- is a tree, since every map there is freshly decoded; in Function the maps are shared, and so stand on
-- a heap. Headers are dictionaries in a fixed order, since their keys are distinct.
--
-- Not modelled: the registration of types in the scheme and the flags of the logger in cmd/main.go,
-- generated deep copies, the HTML template, the listening and the flushing of internal/statusserver, the
-- informer of the watcher, whose notifications are a list, and its pool, logging, contexts and their
-- cancellation outside the stream, paths that the ServeMux redirects, and the resource versions of
-- objects, whose conflicts are failures of an update.
pub mod Base
pub mod Json
pub mod Function
pub mod Api
pub mod Controller
pub mod StatusServer
pub mod Watcher
pub mod Manager
pub mod Examples
