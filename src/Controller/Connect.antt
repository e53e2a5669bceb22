-- ===== src/Controller/Connect.antt =====
-- `connector.Connect`, which the four controllers have word for word alike but for the resource type:
-- usage tracking, the lookup of the provider config, the credentials and the client. The Kubernetes
-- client and crossplane-runtime are parameters.
pub mod Laws
use provider_growthbook.Base.{String, ◌==◌, string_eq, if◌then◌else◌}
use provider_growthbook.Growthbook.Errors.{Result, ok, err, wrap, plain}
use provider_growthbook.Growthbook.Text.{Bytes}
use provider_growthbook.Apis.Config.{
  ProviderConfigReference, ProviderCredentials, ProviderConfigSpec,
}

-- `track` records the use of a provider config; the two reads give its spec, by namespace and name
-- or by name; `extract` is CommonCredentialExtractor, which reads the secret.
pub record Kube (Selectors W : Type 0) : Type 0 where
  pub track : ProviderConfigReference → W → Result (Unit {0}) × W
  pub get_provider_config : String → String → W → Result (ProviderConfigSpec Selectors) × W
  pub get_cluster_provider_config : String → W → Result (ProviderConfigSpec Selectors) × W
  pub extract : ProviderCredentials Selectors → W → Result Bytes × W

-- Steps that may fail, each in the world that the last one left.
abbrev pub next : {W A B : Type 0} → Result A × W → (A → W → Result B × W) → Result B × W
next (ok a, w) f = f a w
next (err e, w) f = (err e, w)

abbrev pub wrap_step : {W A : Type 0} → String → Result A × W → Result A × W
wrap_step message (r, w) = (wrap message r, w)

-- `newClient`, which returns the client behind an interface.
abbrev pub through : {C D : Type 0} → (C → D) → Result C → Result D
through f (ok c) = ok (f c)
through f (err e) = err e

module _ {Selectors W C : Type 0} (kube : Kube Selectors W) (new_client : Bytes → Result C) where
  -- The switch over the kind of the provider config, with its first two cases' results wrapped; the
  -- text of the last error leaves out the kind.
  unfoldable pub credentials_of :
      String → ProviderConfigReference → W → Result (ProviderConfigSpec Selectors) × W
  credentials_of namespace ref w =
      if ref.kind == "ProviderConfig"
      then wrap_step "cannot get ProviderConfig" (kube.get_provider_config namespace ref.name w)
      else if ref.kind == "ClusterProviderConfig"
      then wrap_step "cannot get ClusterProviderConfig"
          (kube.get_cluster_provider_config ref.name w)
      else (err (plain "unsupported provider config kind"), w)

  abbrev built : Bytes → W → Result C × W
  built input w = (wrap "cannot create GrowthBook client" (new_client input), w)

  unfoldable pub connect : String → ProviderConfigReference → W → Result C × W
  connect namespace ref w =
      next (wrap_step "cannot track ProviderConfig usage" (kube.track ref w)) λ _ w₁.
        next (credentials_of namespace ref w₁) λ spec w₂.
          next (wrap_step "cannot get credentials" (kube.extract spec.credentials w₂)) built
