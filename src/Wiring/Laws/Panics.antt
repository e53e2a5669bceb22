-- ===== src/Wiring/Laws/Panics.antt =====
-- When the Setup functions panic, and how main ends.
use provider_growthbook.Base.{
  String, Bool, true, false, Option, none, some, List, [], ◌∷◌, ◌++◌, ◌≡◌, ◌≢◌, refl, arith,
}
use provider_growthbook.Base.Lists.{All}
use provider_growthbook.Growthbook.Errors.{Error, Result, ok, err}
use provider_growthbook.Wiring.Options.{
  ManagedKind, project, environment, feature, sdk_connection, Options, ReconcilerOption,
  initializers, Ending, returned, panicked, Manager,
}
use provider_growthbook.Wiring.Managed.{
  base_options, policy_options, change_log_options, completed, logged, setup_managed, feature_setup,
  environment_setup, project_setup, sdk_connection_setup, feature_setup_gated,
  environment_setup_gated, project_setup_gated, sdk_connection_setup_gated, add_state_metrics,
}
use provider_growthbook.Wiring.Controllers.{
  or_return, run_setups, setup_namespaced_provider_config, setup_cluster_provider_config,
  config_setup, setup_gated, setup, setups, gated_setups,
}
use provider_growthbook.Wiring.Main.{
  Flags, System, Exit, finished, fatal, crashed, or_exit, or_exit_setup, or_crash, with_metrics,
  manager_options, controller_options, started, start_setups, start_controllers, with_change_logs,
  main, can_watch_crd,
}

abbrev pub Returns : Ending → Type 0
Returns (returned r) = Unit
Returns (panicked e) = ⊥

abbrev pub Exits : Exit → Type 0
Exits finished = Unit
Exits (fatal message e) = Unit
Exits (crashed e) = ⊥

module _ {Logger Metrics States : Type 0} where
  -- The pointer to the change log options is set where the feature is enabled.
  abbrev pub HasLogger : Options Logger Metrics States → Type 0
  HasLogger o = o.change_logs ≡ true → o.change_log_options ≢ none

module _ {Logger Metrics States W : Type 0} (mgr : Manager Logger Metrics States W) where
  completed-Returns :
      (o : Options Logger Metrics States) (kind : ManagedKind)
      (opts : List (ReconcilerOption Logger Metrics)) (r : Result (Unit {0}) × W)
      → Returns (completed mgr o kind opts r).0
  completed-Returns o kind opts (ok _, w) = tt
  completed-Returns o kind opts (err e, w) = tt

  logged-Returns :
      (kind : ManagedKind) (opts : List (ReconcilerOption Logger Metrics))
      (o : Options Logger Metrics States) (enabled : Bool) (log : Option Logger) (w : W)
      → (enabled ≡ true → log ≢ none)
      → Returns (logged mgr kind opts o (change_log_options enabled log) w).0
  logged-Returns kind opts o false log w h =
      completed-Returns o kind _ (add_state_metrics mgr kind o.metric_options w)
  logged-Returns kind opts o true none w h = h refl refl
  logged-Returns kind opts o true (some log) w h =
      completed-Returns o kind _ (add_state_metrics mgr kind o.metric_options w)

  setup_managed-Returns :
      (kind : ManagedKind) (extra : List (ReconcilerOption Logger Metrics))
      (o : Options Logger Metrics States)
      → HasLogger o
      → (w : W) → Returns (setup_managed mgr kind extra o w).0
  unfolding setup_managed
  setup_managed-Returns kind extra o h w =
      logged-Returns kind (base_options kind extra o ++ policy_options o.management_policies) o
        o.change_logs o.change_log_options w h

  or_return-Returns :
      (r : Ending × W) (rest : W → Ending × W)
      → Returns r.0
      → ((w : W) → Returns (rest w).0)
      → Returns (or_return r rest).0
  or_return-Returns (returned (ok _), w) rest h k = k w
  or_return-Returns (returned (err e), w) rest h k = tt
  or_return-Returns (panicked e, w) rest h k = h

  run_setups-Returns :
      (setups : List (W → Ending × W))
      → All (λ s. (w : W) → Returns (s w).0) setups
      → (w : W) → Returns (run_setups setups w).0
  unfolding run_setups
  run_setups-Returns [] h w = tt
  run_setups-Returns (s ∷ setups) (here, later) w =
      or_return-Returns (s w) (run_setups setups) (here w) (run_setups-Returns setups later)

  config_setup-Returns :
      (o : Options Logger Metrics States) (w : W) → Returns (config_setup mgr o w).0
  unfolding config_setup setup_namespaced_provider_config setup_cluster_provider_config
  config_setup-Returns o w =
      or_return-Returns (setup_namespaced_provider_config mgr o w)
        (setup_cluster_provider_config mgr o) tt (λ w'. tt)

  setup-Returns :
      (o : Options Logger Metrics States) → HasLogger o → (w : W) → Returns (setup mgr o w).0
  unfolding setup feature_setup environment_setup project_setup sdk_connection_setup
  setup-Returns o h = run_setups-Returns (setups mgr o) (
    config_setup-Returns o,
    (
      setup_managed-Returns project (initializers ∷ []) o h,
      (
        setup_managed-Returns environment [] o h,
        (
          setup_managed-Returns feature [] o h,
          (setup_managed-Returns sdk_connection (initializers ∷ []) o h, tt),
        ),
      ),
    ),
  )

  setup_gated-Returns :
      (o : Options Logger Metrics States) (w : W) → Returns (setup_gated mgr o w).0
  unfolding setup_gated feature_setup_gated environment_setup_gated project_setup_gated
      sdk_connection_setup_gated
  setup_gated-Returns o =
      run_setups-Returns (gated_setups mgr o)
        (config_setup-Returns o, ((λ w. tt), ((λ w. tt), ((λ w. tt), ((λ w. tt), tt)))))

module _ {W : Type 0} where
  or_exit-Exits :
      {A : Type 0} (message : String) (r : Result A × W) (rest : A → W → Exit × W)
      → ((a : A) (w : W) → Exits (rest a w).0)
      → Exits (or_exit message r rest).0
  or_exit-Exits message (ok a, w) rest h = h a w
  or_exit-Exits message (err e, w) rest h = tt

  or_exit_setup-Exits :
      (r : Ending × W) (rest : W → Exit × W)
      → Returns r.0
      → ((w : W) → Exits (rest w).0)
      → Exits (or_exit_setup r rest).0
  or_exit_setup-Exits (returned (ok _), w) rest h k = k w
  or_exit_setup-Exits (returned (err e), w) rest h k = tt
  or_exit_setup-Exits (panicked e, w) rest h k = h

module _ {Logger Metrics States W : Type 0} (sys : System Logger W)
    (mgr : Manager Logger Metrics States W) where
  started-Exits : (w : W) → Exits (started sys mgr w).0
  started-Exits w = or_exit-Exits _ (sys.start w) _ (λ _ w'. tt)

  start_setups-Exits :
      (o : Options Logger Metrics States)
      → HasLogger o
      → (safe : Bool) (w : W) → Exits (start_setups sys mgr o safe w).0
  start_setups-Exits o h true w = or_exit-Exits _ (sys.setup_crd_gate w) _ (λ _ w₁.
      or_exit_setup-Exits (setup_gated mgr o w₁) (started sys mgr) (setup_gated-Returns mgr o w₁)
        started-Exits)
  start_setups-Exits o h false w =
      or_exit_setup-Exits (setup mgr o w) (started sys mgr) (setup-Returns mgr o h w) started-Exits

  start_controllers-Exits :
      (o : Options Logger Metrics States)
      → HasLogger o
      → (w : W) → Exits (start_controllers sys mgr o w).0
  unfolding start_controllers
  start_controllers-Exits o h w =
      or_exit-Exits _ (can_watch_crd sys w) _ (λ safe. start_setups-Exits o h safe)

  with_change_logs-Exits :
      (enabled : Bool) (path : String) (o : Options Logger Metrics States) (w : W)
      → o.change_logs ≡ enabled
      → Exits (with_change_logs sys mgr enabled path o (start_controllers sys mgr) w).0
  with_change_logs-Exits false path o w e = start_controllers-Exits o (λ h. ground arith) w
  with_change_logs-Exits true path o w e = or_exit-Exits _ (sys.new_change_logger path w) _ (λ log.
      start_controllers-Exits (record o { change_log_options = some log }) (λ h k. ground arith))

  -- The two registrations of metrics do not panic: each registry is used once.
  abbrev pub RegistersMetrics : Type 0
  RegistersMetrics =
      ((w : W) → (sys.register_metrics w).0 ≡ none)
      × ((w : W) → (sys.register_state_metrics w).0 ≡ none)

  or_crash-Exits :
      (r : Option Error × W) (rest : W → Exit × W)
      → r.0 ≡ none
      → ((w : W) → Exits (rest w).0)
      → Exits (or_crash r rest).0
  or_crash-Exits (none, w) rest h k = k w
  or_crash-Exits (some e, w) rest h k = ground arith

  with_metrics-Exits :
      (rest : W → Exit × W) (w : W)
      → RegistersMetrics
      → ((w : W) → Exits (rest w).0)
      → Exits (with_metrics sys mgr rest w).0
  with_metrics-Exits rest w (first, second) h =
      or_crash-Exits (sys.register_metrics w) _ (first w)
        (λ w₁. or_crash-Exits (sys.register_state_metrics w₁) rest (second w₁) h)

  -- Whatever the flags are and whatever the calls of the libraries answer, main itself finishes or
  -- exits with an error message, and does not panic, where the registration of its metrics does not:
  -- each Setup that it runs reads the change log options only where main has set them.
  pub main-Exits :
      (flags : Flags) (metrics : Metrics) (states : States) (w : W)
      → RegistersMetrics
      → Exits (main sys mgr flags metrics states w).0
  unfolding main controller_options
  main-Exits flags metrics states w registers = or_exit-Exits _ (sys.get_config w) _ λ _ w₁.
      or_exit-Exits _ (sys.add_clientgo_scheme w₁) _ λ _ w₂.
        or_exit-Exits _ (sys.add_apis_scheme w₂) _ λ _ w₃.
          or_exit-Exits _ (sys.add_extensions_scheme w₃) _ λ _ w₄.
            or_exit-Exits _ (sys.new_manager (manager_options flags) w₄) _ λ _ w₅.
              with_metrics-Exits _ w₅ registers λ w₆.
                with_change_logs-Exits flags.enable_change_logs flags.changelogs_socket_path
                  (controller_options sys mgr flags metrics states) w₆ refl
