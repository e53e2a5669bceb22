-- ===== src/Wiring/Managed.antt =====
-- `Setup` and `SetupGated` of internal/controller/feature, environment, project and sdkconnection,
-- which differ in the kind and in the initializers alone.
use provider_growthbook.Base.{ℕ, String, Bool, true, false, Option, none, some, List, [], ◌∷◌, ◌++◌}
use provider_growthbook.Growthbook.Errors.{Result, ok, err, wrap, wrapped}
use provider_growthbook.Wiring.Options.{
  ManagedKind, project, environment, feature, sdk_connection, MetricOptions, Options,
  ReconcilerOption, external_connector, initializers, logger, poll_interval, recorder,
  management_policies, change_logger, metric_recorder, Ending, returned, panicked, Manager,
}

abbrev pub state_recorder_error : ManagedKind → String
state_recorder_error project =
    "cannot register MR state metrics recorder for kind v1alpha1.ProjectList"
state_recorder_error environment =
    "cannot register MR state metrics recorder for kind v1alpha1.EnvironmentList"
state_recorder_error feature =
    "cannot register MR state metrics recorder for kind v1alpha1.FeatureList"
state_recorder_error sdk_connection =
    "cannot register MR state metrics recorder for kind v1alpha1.SDKConnectionList"

abbrev pub setup_error : ManagedKind → String
setup_error project = "cannot setup Project controller"
setup_error environment = "cannot setup Environment controller"
setup_error feature = "cannot setup Feature controller"
setup_error sdk_connection = "cannot setup SDKConnection controller"

module _ {Logger Metrics : Type 0} where
  abbrev pub policy_options : Bool → List (ReconcilerOption Logger Metrics)
  policy_options true = management_policies ∷ []
  policy_options false = []

  -- `none` is the read through a ChangeLogOptions that is nil.
  abbrev pub change_log_options :
      Bool → Option Logger → Option (List (ReconcilerOption Logger Metrics))
  change_log_options false log = some []
  change_log_options true none = none
  change_log_options true (some log) = some (change_logger log ∷ [])

module _ {Logger Metrics States : Type 0} where
  abbrev pub base_options :
      ManagedKind
      → List (ReconcilerOption Logger Metrics)
      → Options Logger Metrics States
      → List (ReconcilerOption Logger Metrics)
  base_options kind extra o =
      external_connector kind
      ∷ (extra ++ (logger kind ∷ poll_interval o.poll_interval ∷ recorder kind ∷ []))

  abbrev pub metric_options :
      Option (MetricOptions Metrics States) → List (ReconcilerOption Logger Metrics)
  metric_options none = []
  metric_options (some m) = metric_recorder m.mr_metrics ∷ []

module _ {Logger Metrics States W : Type 0} (mgr : Manager Logger Metrics States W) where
  abbrev pub add_states : ManagedKind → ℕ → Option States → W → Result (Unit {0}) × W
  add_states kind interval none w = (ok tt, w)
  add_states kind interval (some states) w =
      let (r, w') = mgr.add_state_recorder kind states interval w in
      (wrap (state_recorder_error kind) r, w')

  abbrev pub add_state_metrics :
      ManagedKind → Option (MetricOptions Metrics States) → W → Result (Unit {0}) × W
  add_state_metrics kind none w = (ok tt, w)
  add_state_metrics kind (some m) w =
      add_states kind m.poll_state_metric_interval m.mr_state_metrics w

  abbrev pub completed :
      Options Logger Metrics States
      → ManagedKind
      → List (ReconcilerOption Logger Metrics)
      → Result (Unit {0}) × W
      → Ending × W
  completed o kind opts (err e, w) = (returned (err e), w)
  completed o kind opts (ok _, w) = let (r, w') = mgr.complete o kind opts w in (returned r, w')

  abbrev pub logged :
      ManagedKind
      → List (ReconcilerOption Logger Metrics)
      → Options Logger Metrics States
      → Option (List (ReconcilerOption Logger Metrics))
      → W
      → Ending × W
  logged kind opts o none w = (panicked none, w)
  logged kind opts o (some logs) w =
      completed o kind (opts ++ (logs ++ metric_options o.metric_options))
        (add_state_metrics kind o.metric_options w)

  -- The common body, over the options that stand after the connector.
  unfoldable pub setup_managed :
      ManagedKind
      → List (ReconcilerOption Logger Metrics)
      → Options Logger Metrics States
      → W
      → Ending × W
  setup_managed kind extra o w =
      logged kind (base_options kind extra o ++ policy_options o.management_policies) o
        (change_log_options o.change_logs o.change_log_options) w

  unfoldable pub feature_setup : Options Logger Metrics States → W → Ending × W
  unfolding setup_managed
  feature_setup = setup_managed feature []

  unfoldable pub environment_setup : Options Logger Metrics States → W → Ending × W
  unfolding setup_managed
  environment_setup = setup_managed environment []

  unfoldable pub project_setup : Options Logger Metrics States → W → Ending × W
  unfolding setup_managed
  project_setup = setup_managed project (initializers ∷ [])

  unfoldable pub sdk_connection_setup : Options Logger Metrics States → W → Ending × W
  unfolding setup_managed
  sdk_connection_setup = setup_managed sdk_connection (initializers ∷ [])

  -- The function that is registered: it panics on an error.
  abbrev pub or_panic : ManagedKind → Ending × W → Ending × W
  or_panic kind (returned (ok _), w) = (returned (ok tt), w)
  or_panic kind (returned (err e), w) = (panicked (some (wrapped (setup_error kind) e)), w)
  or_panic kind (panicked e, w) = (panicked e, w)

  abbrev pub gated : ManagedKind → (W → Ending × W) → W → Ending × W
  gated kind setup w = (returned (ok tt), mgr.register kind (λ w'. or_panic kind (setup w')) w)

  unfoldable pub feature_setup_gated : Options Logger Metrics States → W → Ending × W
  unfolding feature_setup
  feature_setup_gated o = gated feature (feature_setup o)

  unfoldable pub environment_setup_gated : Options Logger Metrics States → W → Ending × W
  unfolding environment_setup
  environment_setup_gated o = gated environment (environment_setup o)

  unfoldable pub project_setup_gated : Options Logger Metrics States → W → Ending × W
  unfolding project_setup
  project_setup_gated o = gated project (project_setup o)

  unfoldable pub sdk_connection_setup_gated : Options Logger Metrics States → W → Ending × W
  unfolding sdk_connection_setup
  sdk_connection_setup_gated o = gated sdk_connection (sdk_connection_setup o)
