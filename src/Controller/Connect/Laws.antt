-- ===== src/Controller/Connect/Laws.antt =====
-- The chain of steps of `connector.Connect`.
use provider_growthbook.Base.{
  String, Bool, true, false, ◌≡◌, ◌⊎◌, inl, inr, refl, arith, ◌==◌, string_eq, if◌then◌else◌, ap,
  ◌∙◌, ==→≡,
}
use provider_growthbook.Growthbook.Errors.{Result, ok, err, plain, wrap}
use provider_growthbook.Growthbook.Text.{Bytes}
use provider_growthbook.Apis.Config.{ProviderConfigReference, ProviderConfigSpec}
use provider_growthbook.Controller.Connect.{Kube, next, wrap_step, credentials_of, built, connect}

next_ok :
    {W A B : Type 0} (r : Result A × W) (f : A → W → Result B × W) (b : B) (w' : W)
    → next r f ≡ (ok b, w')
    → (a : A) × (w : W) × (r ≡ (ok a, w)) × (f a w ≡ (ok b, w'))
next_ok (ok a, w) f b w' h = (a, w, refl, h)
next_ok (err e, w) f b w' h = ground arith

wrap_step_ok :
    {W A : Type 0} (message : String) (r : Result A × W) (a : A) (w : W)
    → wrap_step message r ≡ (ok a, w)
    → r ≡ (ok a, w)
wrap_step_ok message (ok a, w) b w' h = h
wrap_step_ok message (err e, w) b w' h = ground arith

wrap_ok : {A : Type 0} (message : String) (r : Result A) (a : A) → wrap message r ≡ ok a → r ≡ ok a
wrap_ok message (ok a) b h = h
wrap_ok message (err e) b h = ground arith

module _ {Selectors W C : Type 0} (kube : Kube Selectors W) (new_client : Bytes → Result C) where
  -- The provider config that a reference names: by namespace and name, or by name alone.
  abbrev pub IsConfig :
      String → ProviderConfigReference → W → ProviderConfigSpec Selectors → W → Type 0
  IsConfig namespace ref w spec w' =
      ((ref.kind ≡ "ProviderConfig")
        × (kube.get_provider_config namespace ref.name w ≡ (ok spec, w')))
      ⊎ ((ref.kind ≡ "ClusterProviderConfig")
          × (kube.get_cluster_provider_config ref.name w ≡ (ok spec, w')))

  -- The use of the config is tracked, then the config is read, then its secret, of which the client
  -- is built.
  pub record IsConnected (namespace : String) (ref : ProviderConfigReference) (w : W) (c : C)
      (w' : W) : Type 0 where
    pub tracked : W
    pub found : W
    pub spec : ProviderConfigSpec Selectors
    pub secret : Bytes
    pub tracks : kube.track ref w ≡ (ok tt, tracked)
    pub finds : IsConfig namespace ref tracked spec found
    pub extracts : kube.extract spec.credentials found ≡ (ok secret, w')
    pub builds : new_client secret ≡ ok c

  IsConfig-branch :
      (is_namespaced is_cluster : Bool) (namespace : String) (ref : ProviderConfigReference)
      (w w' : W) (spec : ProviderConfigSpec Selectors)
      → (is_namespaced ≡ true → ref.kind ≡ "ProviderConfig")
      → (is_cluster ≡ true → ref.kind ≡ "ClusterProviderConfig")
      → ◌≡◌ {A = Result (ProviderConfigSpec Selectors) × W}
          (if is_namespaced
            then wrap_step "cannot get ProviderConfig"
                (kube.get_provider_config namespace ref.name w)
            else if is_cluster
            then wrap_step "cannot get ClusterProviderConfig"
                (kube.get_cluster_provider_config ref.name w)
            else (err (plain "unsupported provider config kind"), w))
          (ok spec, w')
      → IsConfig namespace ref w spec w'
  IsConfig-branch true is_cluster namespace ref w w' spec p q h =
      inl (p refl, wrap_step_ok _ (kube.get_provider_config namespace ref.name w) spec w' h)
  IsConfig-branch false true namespace ref w w' spec p q h =
      inr (q refl, wrap_step_ok _ (kube.get_cluster_provider_config ref.name w) spec w' h)
  IsConfig-branch false false namespace ref w w' spec p q h = ground arith

  credentials_of-IsConfig :
      (namespace : String) (ref : ProviderConfigReference) (w w' : W)
      (spec : ProviderConfigSpec Selectors)
      → credentials_of kube new_client namespace ref w ≡ (ok spec, w')
      → IsConfig namespace ref w spec w'
  unfolding credentials_of
  credentials_of-IsConfig namespace ref w w' spec h =
      IsConfig-branch (ref.kind == "ProviderConfig") (ref.kind == "ClusterProviderConfig") namespace
        ref w w' spec (==→≡ ref.kind "ProviderConfig") (==→≡ ref.kind "ClusterProviderConfig") h

  built_ok :
      (input : Bytes) (w w' : W) (c : C)
      → built kube new_client input w ≡ (ok c, w')
      → (new_client input ≡ ok c) × (w ≡ w')
  built_ok input w w' c h = (wrap_ok _ (new_client input) c (ap (λ r. r.0) h), ap (λ r. r.1) h)

  -- Connect returns a client only if the use of the provider config was tracked, the reference is
  -- of one of the two kinds and the config of that kind was read, its secret was extracted, and the
  -- client is the one built of that secret, in this order.
  pub connect-IsConnected :
      (namespace : String) (ref : ProviderConfigReference) (w w' : W) (c : C)
      → connect kube new_client namespace ref w ≡ (ok c, w')
      → IsConnected namespace ref w c w'
  unfolding connect
  connect-IsConnected namespace ref w w' c h =
      let (_, w₁, tracked, h₁) = next_ok (wrap_step _ (kube.track ref w)) _ c w' h in
      let (spec, w₂, found, h₂) =
        next_ok (credentials_of kube new_client namespace ref w₁) _ c w' h₁ in
      let (secret, w₃, extracted, h₃) =
        next_ok (wrap_step _ (kube.extract spec.credentials w₂)) _ c w' h₂ in
      let (builds, e) = built_ok secret w₃ w' c h₃ in
      record {
        tracked = w₁;
        found = w₂;
        spec = spec;
        secret = secret;
        tracks = wrap_step_ok _ (kube.track ref w) tt w₁ tracked;
        finds = credentials_of-IsConfig namespace ref w₁ w₂ spec found;
        extracts =
            wrap_step_ok _ (kube.extract spec.credentials w₂) secret w'
              (extracted ∙ ap (λ v. (ok secret, v)) e);
        builds = builds;
      }
