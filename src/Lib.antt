-- ===== src/Lib.antt =====
-- PD-Manager: a Kubernetes operator for LLM inference that is split into prefill and decode.
--
-- A PDInferenceService (the model, three roles router, prefill and decode, volumes, scaling) may
-- refer to a PDEngineProfile, which gives defaults for images, commands, arguments and engine
-- runtimes. Two webhooks default and validate it at admission. The reconciler adds its finalizer,
-- merges the profile with the inline fields, translates the result into a RoleBasedGroup, creates
-- or updates that group, and writes the state of the group back as phase, role statuses and Ready
-- condition. A REST API in front of Kubernetes creates, lists, reads, scales and deletes services and
-- profiles.
--
-- The files and what they model:
--   Platform      the linked libraries, as a parameter: quantities (resource.ParseQuantity), %q
--                 and the finalizer helpers, with their documented laws
--   Api           api/v1alpha1/pdinferenceservice_types.go and pdengineprofile_types.go, and the
--                 metadata and conditions of Kubernetes that they hold
--   Config        internal/config/merger.go: applyProfile, Resolve; Config/Merge has the
--                 specification
--   Webhook       internal/webhook/v1alpha1/pdinferenceservice_webhook.go: Default,
--                 ValidateCreate, ValidateUpdate, ValidateDelete and their helpers
--   Workload      the fields of the Kubernetes and RoleBasedGroup types that the program uses
--   Translator    internal/translator/rbg_builder.go: Build and each of its helpers
--   Pipeline      admission, merge and translation taken together, and with the reconciler
--   DeepCopy      api/v1alpha1/zz_generated.deepcopy.go: DeepCopyInto, DeepCopy and DeepCopyObject
--                 of each type. An object in memory (GoVolumeSpec and so on) has addresses at its
--                 pointers, slices and maps, and reads as the record of Api (View); a copy takes
--                 its addresses from a counter (Alloc)
--   Cluster       the client of the reconciler, as a parameter: Client is a record of operations
--                 on a state, ClientLaws what the API server promises, ServerAnswers
--                 that it answers, Store a server in memory
--                 that keeps the laws
--   Controller    internal/controller/pdinferenceservice_controller.go and status.go
--   Rest          internal/apiserver: the handlers in handler/pdinferenceservice.go and
--                 handler/pdengineprofile.go on the Kubernetes API as a parameter (Upstream), and
--                 the patterns and the Start of server.go; Catalog is what the profile
--                 endpoints promise, Memory an API in memory
--   Startup       cmd/main.go: the flags and the options that they give (Defs), main call by call,
--                 each with its own exit (Main), and what has been done once the manager is
--                 started, against a list of the calls that are needed (Plan, Needed)
--   Tests         concrete services, clusters and requests
--
-- Conventions. A fallible call returns Result; an error keeps its text, whether it is "not found",
-- and what wraps it. `none` as the result of a translation is the panic of resource.MustParse. A
-- call of the reconciler is an Action: it maps the state of the cluster to a new state and to a
-- value, an error or a panic, and what was written before an error stays written. A Go map is an
-- association list with one entry for each key; replicas and ports are integers that the program
-- only compares and copies, so no arithmetic on them can overflow; time.Since saturates at the
-- range of int64 as Go's does. Each loop of the program walks one list, so each is a structural
-- recursion and no fuel is needed.
--
-- The laws of the client describe one reconciliation with no other writer at work. Its reads come
-- from a cache and may be out of date: of a read of a group only the key is assumed, and that the
-- read of a service is up to date is a condition where a theorem needs it (IsFresh). Where it is not,
-- the server refuses the updates of that service. An operation may fail at any time. What holds also
-- with other writers at work is stated on the log of the writes (Controller/Trace) over a client that
-- answers anything about the object that it is asked for (AnswersByKey). Where several reconciliations
-- follow one another (Controller/Runs), each begins in the state that the one before has left. The
-- reads of the REST API go past the cache; what a write of it that fails leaves of its own object is
-- not known.
--
-- Not modelled: the text of JSON, the parsing of the flags' text, the registration of types,
-- webhooks and controller with the manager, logging, and the vendored
-- libraries.
pub mod Common
pub mod Platform
pub mod Api
pub mod Config
pub mod Webhook
pub mod Workload
pub mod DeepCopy
pub mod Translator
pub mod Pipeline
pub mod Cluster
pub mod Controller
pub mod Rest
pub mod Startup
mod Tests
