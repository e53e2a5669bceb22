-- ===== src/Wiring/Controllers.antt =====
-- internal/controller/growthbook.go and internal/controller/config/config.go.
use provider_growthbook.Base.{List, [], ◌∷◌}
use provider_growthbook.Growthbook.Errors.{Result, ok, err}
use provider_growthbook.Wiring.Options.{Options, Ending, returned, panicked, Manager}
use provider_growthbook.Wiring.Managed.{
  feature_setup, environment_setup, project_setup, sdk_connection_setup, feature_setup_gated,
  environment_setup_gated, project_setup_gated, sdk_connection_setup_gated,
}

module _ {W : Type 0} where
  -- One round of the loop: it goes on unless there was an error.
  abbrev pub or_return : Ending × W → (W → Ending × W) → Ending × W
  or_return (returned (ok _), w) rest = rest w
  or_return (returned (err e), w) rest = (returned (err e), w)
  or_return (panicked e, w) rest = (panicked e, w)

  unfoldable pub run_setups : List (W → Ending × W) → W → Ending × W
  run_setups [] w = (returned (ok tt), w)
  run_setups (setup ∷ setups) w = or_return (setup w) (run_setups setups)

module _ {Logger Metrics States W : Type 0} (mgr : Manager Logger Metrics States W) where
  abbrev config_ending : Result (Unit {0}) × W → Ending × W
  config_ending (r, w) = (returned r, w)

  unfoldable pub setup_namespaced_provider_config : Options Logger Metrics States → W → Ending × W
  setup_namespaced_provider_config o w = config_ending (
      mgr.complete_config o
        (record {
          config = "ProviderConfig";
          usage = "ProviderConfigUsage";
          usage_list = "ProviderConfigUsageList";
        })
        w)

  unfoldable pub setup_cluster_provider_config : Options Logger Metrics States → W → Ending × W
  setup_cluster_provider_config o w = config_ending (
      mgr.complete_config o
        (record {
          config = "ClusterProviderConfig";
          usage = "ProviderConfigUsage";
          usage_list = "ProviderConfigUsageList";
        })
        w)

  unfoldable pub config_setup : Options Logger Metrics States → W → Ending × W
  unfolding setup_namespaced_provider_config setup_cluster_provider_config
  config_setup o w =
      or_return (setup_namespaced_provider_config o w) (setup_cluster_provider_config o)

  -- The functions that the two loops range over.
  abbrev pub gated_setups : Options Logger Metrics States → List (W → Ending × W)
  gated_setups o =
      config_setup o
      ∷ project_setup_gated mgr o
      ∷ environment_setup_gated mgr o
      ∷ feature_setup_gated mgr o
      ∷ sdk_connection_setup_gated mgr o
      ∷ []

  abbrev pub setups : Options Logger Metrics States → List (W → Ending × W)
  setups o =
      config_setup o
      ∷ project_setup mgr o
      ∷ environment_setup mgr o
      ∷ feature_setup mgr o
      ∷ sdk_connection_setup mgr o
      ∷ []

  unfoldable pub setup_gated : Options Logger Metrics States → W → Ending × W
  unfolding run_setups
  setup_gated o = run_setups (gated_setups o)

  unfoldable pub setup : Options Logger Metrics States → W → Ending × W
  unfolding run_setups
  setup o = run_setups (setups o)
