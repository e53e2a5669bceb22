-- ===== src/Wiring/Main.antt =====
-- cmd/provider/main.go from the parsed flags on, without its logging: the options, the permission check
-- and the order of the steps. The Kubernetes client libraries are parameters.
use provider_growthbook.Base.{ℕ, String, Bool, true, false, not, Option, none, some, List, [], ◌∷◌}
use provider_growthbook.Growthbook.Errors.{Error, Result, ok, err, wrapped}
use provider_growthbook.Wiring.Options.{Options, Ending, returned, panicked, Manager}
use provider_growthbook.Wiring.Controllers.{setup, setup_gated}

-- Durations are in seconds.
pub record Flags : Type 0 where
  pub leader_election : Bool
  pub sync_interval : ℕ
  pub poll_interval : ℕ
  pub poll_state_metric_interval : ℕ
  pub max_reconcile_rate : ℕ
  pub enable_management_policies : Bool
  pub enable_change_logs : Bool
  pub changelogs_socket_path : String
  pub enable_secret_cache : Bool

-- The arguments of `ctrl.NewManager` beside the scheme: the rate of its REST client, and
-- `ctrl.Options`.
pub record ManagerOptions : Type 0 where
  pub rest_rate : ℕ
  pub sync_period : ℕ
  pub crd_schemas_stripped : Bool
  pub secrets_uncached : Bool
  pub leader_election : Bool
  pub leader_election_id : String
  pub leases_only : Bool
  pub lease_duration : ℕ
  pub renew_deadline : ℕ

unfoldable pub manager_options : Flags → ManagerOptions
manager_options flags = record {
  rest_rate = flags.max_reconcile_rate;
  sync_period = flags.sync_interval;
  crd_schemas_stripped = true;
  secrets_uncached = not flags.enable_secret_cache;
  leader_election = flags.leader_election;
  leader_election_id = "crossplane-leader-election-provider-growthbook";
  leases_only = true;
  lease_duration = 60;
  renew_deadline = 50;
}

-- The steps that are calls of the libraries; `review` creates a SelfSubjectAccessReview for a verb
-- and returns whether it is allowed; the
-- two registrations are metrics.Registry.MustRegister, with the error with which it panics.
pub record System (Logger W : Type 0) : Type 0 where
  pub get_config : W → Result (Unit {0}) × W
  pub add_clientgo_scheme : W → Result (Unit {0}) × W
  pub add_apis_scheme : W → Result (Unit {0}) × W
  pub add_extensions_scheme : W → Result (Unit {0}) × W
  pub new_manager : ManagerOptions → W → Result (Unit {0}) × W
  pub register_metrics : W → Option Error × W
  pub register_state_metrics : W → Option Error × W
  pub new_change_logger : String → W → Result Logger × W
  pub add_authorization_scheme : W → Result (Unit {0}) × W
  pub review : String → W → Result Bool × W
  pub setup_crd_gate : W → Result (Unit {0}) × W
  pub start : W → Result (Unit {0}) × W

-- How the process ends: main returns, exits by FatalIfError, or panics.
pub data Exit : Type 0 where
  finished : Exit
  fatal : String → Error → Exit
  crashed : Option Error → Exit

module _ {W : Type 0} where
  -- `kingpin.FatalIfError(err, message)` before what follows.
  abbrev pub or_exit : {A : Type 0} → String → Result A × W → (A → W → Exit × W) → Exit × W
  or_exit message (ok a, w) rest = rest a w
  or_exit message (err e, w) rest = (fatal message e, w)

  abbrev pub or_crash : Option Error × W → (W → Exit × W) → Exit × W
  or_crash (none, w) rest = rest w
  or_crash (some e, w) rest = (crashed (some e), w)

  abbrev pub or_exit_setup : Ending × W → (W → Exit × W) → Exit × W
  or_exit_setup (returned (ok _), w) rest = rest w
  or_exit_setup (returned (err e), w) rest = (fatal "Cannot setup GrowthBook controllers" e, w)
  or_exit_setup (panicked e, w) rest = (crashed e, w)

module _ {Logger W : Type 0} (sys : System Logger W) where
  -- One round of the loop of `canWatchCRD`, before the rounds that are left.
  abbrev pub reviewed : Result Bool × W → (W → Result Bool × W) → Result Bool × W
  reviewed (err e, w) rest =
      (err (wrapped "cannot check RBAC for a verb on CustomResourceDefinitions" e), w)
  reviewed (ok false, w) rest = (ok false, w)
  reviewed (ok true, w) rest = rest w

  unfoldable pub review_all : List String → W → Result Bool × W
  review_all [] w = (ok true, w)
  review_all (verb ∷ verbs) w = reviewed (sys.review verb w) (review_all verbs)

  abbrev pub after_scheme : Result (Unit {0}) × W → Result Bool × W
  after_scheme (err e, w) = (err e, w)
  after_scheme (ok _, w) = review_all ("get" ∷ "list" ∷ "watch" ∷ []) w

  unfoldable pub can_watch_crd : W → Result Bool × W
  unfolding review_all
  can_watch_crd w = after_scheme (sys.add_authorization_scheme w)

module _ {Logger Metrics States W : Type 0} (sys : System Logger W)
    (mgr : Manager Logger Metrics States W) where
  -- The options before the change logger is connected.
  unfoldable pub controller_options : Flags → Metrics → States → Options Logger Metrics States
  controller_options flags metrics states = record {
    max_concurrent_reconciles = flags.max_reconcile_rate;
    poll_interval = flags.poll_interval;
    global_rate = flags.max_reconcile_rate;
    management_policies = flags.enable_management_policies;
    change_logs = flags.enable_change_logs;
    change_log_options = none;
    metric_options = some (record {
      poll_state_metric_interval = flags.poll_state_metric_interval;
      mr_metrics = metrics;
      mr_state_metrics = some states;
    });
  }

  abbrev pub started : W → Exit × W
  started w = or_exit "Cannot start controller manager" (sys.start w) λ _ w₁. (finished, w₁)

  -- Which Setup runs, by the result of the permission check.
  abbrev pub start_setups : Options Logger Metrics States → Bool → W → Exit × W
  start_setups o true w =
      or_exit "Cannot setup CRD gate controller" (sys.setup_crd_gate w)
        λ _ w₁. or_exit_setup (setup_gated mgr o w₁) started
  start_setups o false w = or_exit_setup (setup mgr o w) started

  unfoldable pub start_controllers : Options Logger Metrics States → W → Exit × W
  start_controllers o w =
      or_exit "safe-start precheck failed" (can_watch_crd sys w) (start_setups o)

  -- `if *enableChangeLogs`
  abbrev pub with_change_logs :
      Bool
      → String
      → Options Logger Metrics States
      → (Options Logger Metrics States → W → Exit × W)
      → W
      → Exit × W
  with_change_logs false path o rest w = rest o w
  with_change_logs true path o rest w =
      or_exit "failed to create change logs client connection" (sys.new_change_logger path w)
        λ log. rest (record o { change_log_options = some log })

  abbrev pub with_metrics : (W → Exit × W) → W → Exit × W
  with_metrics rest w =
      or_crash (sys.register_metrics w) λ w₁. or_crash (sys.register_state_metrics w₁) rest

  unfoldable pub main : Flags → Metrics → States → W → Exit × W
  main flags metrics states w =
      or_exit "Cannot get API server rest config" (sys.get_config w) λ _ w₁.
        or_exit "Cannot add clientgo scheme" (sys.add_clientgo_scheme w₁) λ _ w₂.
          or_exit "Cannot add GrowthBook APIs to scheme" (sys.add_apis_scheme w₂) λ _ w₃.
            or_exit "Cannot add CustomResourceDefinition to scheme" (sys.add_extensions_scheme w₃)
              λ _ w₄.
                or_exit "Cannot create controller manager"
                  (sys.new_manager (manager_options flags) w₄)
                  (λ _ w₅.
                    with_metrics
                      (with_change_logs flags.enable_change_logs flags.changelogs_socket_path
                        (controller_options flags metrics states) start_controllers)
                      w₅)
