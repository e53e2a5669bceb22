-- ===== src/Wiring/Options.antt =====
-- What of crossplane-runtime and controller-runtime the Setup functions use: controller.Options, the
-- options of a managed reconciler, and the manager, whose methods are parameters.
use provider_growthbook.Base.{ℕ, String, Bool, Option, List}
use provider_growthbook.Growthbook.Errors.{Error, Result}

-- The kinds that a controller of its own reconciles.
pub data ManagedKind : Type 0 where
  project environment feature sdk_connection : ManagedKind

pub record MetricOptions (Metrics States : Type 0) : Type 0 where
  pub poll_state_metric_interval : ℕ
  pub mr_metrics : Metrics
  pub mr_state_metrics : Option States

-- The features are the two flags that the provider looks at; `global_rate` is the rate of the global
-- rate limiter.
pub record Options (Logger Metrics States : Type 0) : Type 0 where
  pub max_concurrent_reconciles : ℕ
  pub poll_interval : ℕ
  pub global_rate : ℕ
  pub management_policies : Bool
  pub change_logs : Bool
  pub change_log_options : Option Logger
  pub metric_options : Option (MetricOptions Metrics States)

-- A `managed.ReconcilerOption`, by the function that makes it. Logger and recorder are named after
-- the controller of the kind; `initializers` is WithInitializers with no argument, which drops the
-- default ones.
pub data ReconcilerOption (Logger Metrics : Type 0) : Type 0 where
  external_connector : ManagedKind → ReconcilerOption Logger Metrics
  initializers : ReconcilerOption Logger Metrics
  logger : ManagedKind → ReconcilerOption Logger Metrics
  poll_interval : ℕ → ReconcilerOption Logger Metrics
  recorder : ManagedKind → ReconcilerOption Logger Metrics
  management_policies : ReconcilerOption Logger Metrics
  change_logger : Logger → ReconcilerOption Logger Metrics
  metric_recorder : Metrics → ReconcilerOption Logger Metrics

-- `resource.ProviderConfigKinds`
pub record ProviderConfigKinds : Type 0 where
  pub config : String
  pub usage : String
  pub usage_list : String

-- How a Go function ends: it returns its error, which may be nil, or it panics, with an error or on a
-- nil pointer.
pub data Ending : Type 0 where
  returned : Result (Unit {0}) → Ending
  panicked : Option Error → Ending

-- `mgr.Add` of a state recorder; the building of a controller of a managed kind, and of one that
-- accounts for the use of provider configs, for which the options give the concurrency and the rate
-- limiter; and `Gate.Register`.
pub record Manager (Logger Metrics States W : Type 0) : Type 0 where
  pub add_state_recorder : ManagedKind → States → ℕ → W → Result (Unit {0}) × W
  pub complete :
      Options Logger Metrics States
      → ManagedKind
      → List (ReconcilerOption Logger Metrics)
      → W
      → Result (Unit {0}) × W
  pub complete_config :
      Options Logger Metrics States → ProviderConfigKinds → W → Result (Unit {0}) × W
  pub register : ManagedKind → (W → Ending × W) → W → W
