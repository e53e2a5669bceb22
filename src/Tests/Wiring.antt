-- ===== src/Tests/Wiring.antt =====
-- cmd/provider/main.go over a cluster that allows get and list, and not watch.
use provider_growthbook.Base.{ℕ, suc, true, false, none, some, refl, ◌==◌, string_eq, if◌then◌else◌}
use provider_growthbook.Growthbook.Errors.{Result, ok}
use provider_growthbook.Wiring.Options.{Options, Manager}
use provider_growthbook.Wiring.Main.{Flags, System, start_controllers, controller_options, main}
use provider_growthbook.Wiring.Laws.Panics.{Exits, main-Exits}
use provider_growthbook.Wiring.Laws.SafeStart.{Starts, start_controllers-Starts}

-- The world counts the calls.
abbrev passes : ℕ → Result (Unit {0}) × ℕ
passes w = (ok tt, suc w)

abbrev cluster : System (Unit {0}) ℕ
cluster = record {
  get_config = passes;
  add_clientgo_scheme = passes;
  add_apis_scheme = passes;
  add_extensions_scheme = passes;
  new_manager = λ o. passes;
  register_metrics = λ w. (none, suc w);
  register_state_metrics = λ w. (none, suc w);
  new_change_logger = λ path. passes;
  add_authorization_scheme = passes;
  review = λ verb w. (ok (if verb == "watch" then false else true), suc w);
  setup_crd_gate = passes;
  start = passes;
}

abbrev manager : Manager (Unit {0}) (Unit {0}) (Unit {0}) ℕ
manager = record {
  add_state_recorder = λ kind states interval. passes;
  complete = λ o kind opts. passes;
  complete_config = λ o kinds. passes;
  register = λ kind setup w. suc w;
}

abbrev with_logs : Flags
with_logs = record {
  leader_election = false;
  sync_interval = 3600;
  poll_interval = 60;
  poll_state_metric_interval = 5;
  max_reconcile_rate = 10;
  enable_management_policies = true;
  enable_change_logs = true;
  changelogs_socket_path = "/var/run/changelogs/changelogs.sock";
  enable_secret_cache = false;
}

main-Exits_example : Exits (main cluster manager with_logs tt tt 0).0
main-Exits_example = main-Exits cluster manager with_logs tt tt 0 ((λ w. refl), (λ w. refl))

abbrev some_options : Options (Unit {0}) (Unit {0}) (Unit {0})
unfolding controller_options
some_options = record (controller_options cluster manager with_logs tt tt) {
  change_log_options = some tt;
}

start_controllers-Starts_example :
    Starts cluster manager some_options 0 (start_controllers cluster manager some_options 0)
start_controllers-Starts_example = start_controllers-Starts cluster manager some_options 0
