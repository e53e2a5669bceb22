-- ===== src/Tests/Connect.antt =====
-- `connector.Connect` over a cluster with one ProviderConfig.
use provider_growthbook.Base.{ℕ, suc, [], ◌∷◌, ◌≡◌, refl}
use provider_growthbook.Growthbook.Errors.{Result, ok, err, plain}
use provider_growthbook.Growthbook.Text.{Bytes}
use provider_growthbook.Apis.Config.{ProviderConfigReference}
use provider_growthbook.Controller.Connect.{Kube, credentials_of, connect}
use provider_growthbook.Controller.Connect.Laws.{IsConnected, connect-IsConnected}

-- The world counts the steps; there is no cluster-wide config.
abbrev one_config : Kube (Unit {0}) ℕ
one_config = record {
  track = λ ref n. (ok tt, suc n);
  get_provider_config = λ namespace name n.
      (ok (record { credentials = record { source = "Secret"; selectors = tt } }), suc n);
  get_cluster_provider_config = λ name n. (err (plain "not found"), suc n);
  extract = λ credentials n. (ok (b'k' ∷ []), suc n);
}

abbrev keep_secret : Bytes → Result Bytes
keep_secret secret = ok secret

abbrev default_config : ProviderConfigReference
default_config = record { kind = "ProviderConfig"; name = "default" }

default-connect : connect one_config keep_secret "team" default_config 0 ≡ (ok (b'k' ∷ []), 3)
unfolding connect credentials_of
default-connect = refl

connect-IsConnected_example :
    IsConnected one_config keep_secret "team" default_config 0 (b'k' ∷ []) 3
connect-IsConnected_example =
    connect-IsConnected one_config keep_secret "team" default_config 0 3 (b'k' ∷ []) default-connect
