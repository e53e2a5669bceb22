-- ===== src/Lib.antt =====
-- Verification of provider-growthbook, a Crossplane provider that reconciles Kubernetes resources
-- (Feature, Environment, Project, SDKConnection) with the REST API of GrowthBook.
--
-- Parts. A controller is called by crossplane-runtime with a resource: Connect builds a client of the
-- API from the credentials of a provider config; Observe reads the external object, fills unset
-- fields of the spec from it (late initialization) and reports whether it is up to date; Create,
-- Update and Delete change it. The clients under internal/clients/growthbook turn these into HTTP
-- requests.
--
-- Files.
--   Base: equality tests, lists, sorting of texts by bytes (sort.Strings), float64 as a parameter.
--   Apis: the types of apis/feature, apis/core, apis/sdk and apis/v1alpha1. A managed resource is
--     Resource: what the controllers read and write of it.
--   Growthbook: internal/clients/growthbook. Errors is APIError, IsNotFound and IsArchiveRequired;
--     Credentials is ParseCredentials, New and NewFromSecret; Http is do, newRequest, decodeResponse
--     and errorMessage, with Http/Laws and Http/Bounds about refusals and Http/Record about what is
--     sent; Json is the object that encoding/json makes of a request (struct tags and omitempty), and
--     Json/Read what the same tags read of it; Text is what is used of strings, bytes and net/url, with
--     Text/Paths and Text/Utf8 about escaped ids; Feature, Environment, Project
--     and SdkConnection are the types; Calls has the methods of Client, and Calls/Lookup what
--     GetEnvironment finds in a listing.
--   Controller: what the controllers share. Managed is the result types of crossplane-runtime,
--     Connect is connector.Connect, and Connect/Laws its chain of steps.
--   Feature: internal/controller/feature. Convert is convert.go, SameSet its sameSet, RulesConvert and
--     RulesDrift the files rules_convert.go and rules_drift.go, External is the external client of
--     feature.go. Matches says what up to date means, Service what GrowthBook stores; DriftLaws,
--     Variations and UpToDate relate the code to the first, RulesRequest, Converge and Reconcile to
--     the second. LateInitialize and Merge are about the spec, MapOrder about the order of maps;
--     Lifecycle and Observing are about External, Archive about the demand to archive before a
--     deletion, Absence, Own and Requests about External over HTTP,
--     Creating about Create and what a new feature holds, and Filled, Steps and Rounds about the
--     methods of External one after another, Steps with a world that others change.
--   Environment, Project and SdkConnection: the controllers of those names, in the same way;
--     their files Connecting are newClient and Connect, and Converge says what the service stores.
--     Environment/Lifecycle, Project/Lifecycle and Project/Updating are about the external clients,
--     Project/Creation about the request of a creation,
--     SdkConnection/Details about the connection details.
--   Wiring: cmd/provider/main.go from the parsed flags on (Main), internal/controller/growthbook.go
--     and internal/controller/config (Controllers), and Setup and SetupGated of the four controllers
--     (Managed) over the options and the manager of crossplane-runtime and controller-runtime
--     (Options). Laws is about panics and about the permission check of main.
--   Tests: concrete runs, and the theorems at concrete inputs.
--
-- Conventions. A pointer, a nil slice or a nil map is an Option; a map is an association list of
-- which the first entry of a key counts; a function that writes through a pointer returns the new
-- value; an error is a value of Result with its chain of causes; a method that talks to the outside
-- takes and returns a world W. Texts from outside Kubernetes are bytes where the code cuts or
-- compares them as bytes, and otherwise the language's texts, so that texts that are no UTF-8 are not
-- covered there.
--
-- Parameters. float64 with strconv.ParseFloat and == (FloatOps), net/http and encoding/json
-- (Platform, and the decoders passed to the calls), url.Parse, the Kubernetes client, usage tracking
-- and credential extraction (Kube), the Kubernetes libraries and the metrics registry as main and the
-- Setup functions call them (System and Manager). Nothing is assumed of them beyond what a theorem's
-- hypotheses say.
--
-- Bounds. An answer is read up to 4 MiB, and a message without JSON is cut at 200 bytes, both as in
-- client.go. No function needs fuel: all recursion is on lists.
--
-- Not modelled: flag parsing and logging in cmd/provider, registration of the types and generated
-- code (deep copies and accessors), the text of an APIError and the values that other error texts
-- format, contexts and timeouts.
pub mod Apis
pub mod Base
pub mod Controller
pub mod Environment
pub mod Feature
pub mod Growthbook
pub mod Project
pub mod SdkConnection
pub mod Tests
pub mod Wiring
