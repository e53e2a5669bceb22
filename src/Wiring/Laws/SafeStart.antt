-- ===== src/Wiring/Laws/SafeStart.antt =====
-- The permission check of cmd/provider/main.go and what it decides.
use provider_growthbook.Base.{
  String, Bool, true, false, List, [], ◌∷◌, ◌≡◌, ◌⊎◌, inl, inr, refl, ap, sym, subst, Option,
}
use provider_growthbook.Growthbook.Errors.{Error, Result, ok, err, wrapped}
use provider_growthbook.Wiring.Options.{Options, Manager, Ending, returned, panicked}
use provider_growthbook.Wiring.Controllers.{setup, setup_gated}
use provider_growthbook.Wiring.Main.{
  Exit, or_exit, or_exit_setup, reviewed, after_scheme, System, fatal, crashed, finished, started,
  review_all, can_watch_crd, start_setups, start_controllers,
}

module _ {Logger W : Type 0} (sys : System Logger W) where
  -- Every verb is reviewed, in order, and allowed.
  abbrev pub AllAllowed : List String → W → W → Type 0
  AllAllowed [] w w' = w ≡ w'
  AllAllowed (verb ∷ verbs) w w' =
      (u : W) × (sys.review verb w ≡ (ok true, u)) × AllAllowed verbs u w'

  -- The reviews end at `w'` with the first answer that is not an allowance, `last`.
  abbrev pub EndsWith : Result Bool → List String → W → W → Type 0
  EndsWith last [] w w' = ⊥
  EndsWith last (verb ∷ verbs) w w' =
      (sys.review verb w ≡ (last, w'))
      ⊎ ((u : W) × (sys.review verb w ≡ (ok true, u)) × EndsWith last verbs u w')

  -- How the reviews end, and what `canWatchCRD` makes of it.
  abbrev pub ReviewOutcome : List String → W → Result Bool × W → Type 0
  ReviewOutcome verbs w r =
      ((v : W) × AllAllowed verbs w v × (r ≡ (ok true, v)))
      ⊎ (((v : W) × EndsWith (ok false) verbs w v × (r ≡ (ok false, v)))
          ⊎ ((e : Error) × (v : W) × EndsWith (err e) verbs w v
              × (r ≡ (
                err (wrapped "cannot check RBAC for a verb on CustomResourceDefinitions" e),
                v,
              ))))

  reviewed_outcome :
      (verb : String) (verbs : List String) (w u : W) (r : Result Bool × W)
      → sys.review verb w ≡ (ok true, u)
      → ReviewOutcome verbs u r
      → ReviewOutcome (verb ∷ verbs) w r
  reviewed_outcome verb verbs w u r k (inl (v, h, e)) = inl (v, (u, k, h), e)
  reviewed_outcome verb verbs w u r k (inr (inl (v, h, e))) = inr (inl (v, inr (u, k, h), e))
  reviewed_outcome verb verbs w u r k (inr (inr (d, v, h, e))) = inr (inr (d, v, inr (u, k, h), e))

  first_outcome :
      (verb : String) (verbs : List String) (w : W) (a : Result Bool × W)
      → sys.review verb w ≡ a
      → ((u : W) → ReviewOutcome verbs u (review_all sys verbs u))
      → ReviewOutcome (verb ∷ verbs) w (reviewed sys a (review_all sys verbs))
  first_outcome verb verbs w (ok true, u) k h = reviewed_outcome verb verbs w u _ k (h u)
  first_outcome verb verbs w (ok false, u) k h = inr (inl (u, inl k, refl))
  first_outcome verb verbs w (err e, u) k h = inr (inr (e, u, inl k, refl))

  review_all-ReviewOutcome :
      (verbs : List String) (w : W) → ReviewOutcome verbs w (review_all sys verbs w)
  unfolding review_all
  review_all-ReviewOutcome [] w = inl (w, refl, refl)
  review_all-ReviewOutcome (verb ∷ verbs) w =
      first_outcome verb verbs w (sys.review verb w) refl (review_all-ReviewOutcome verbs)

abbrev pub verbs : List String
verbs = "get" ∷ "list" ∷ "watch" ∷ []

module _ {Logger Metrics States W : Type 0} (sys : System Logger W)
    (mgr : Manager Logger Metrics States W) where
  -- How the process ends after the controllers were set up.
  abbrev pub EndsAfter : Ending × W → Exit × W → Type 0
  EndsAfter s r =
      ((p : Option Error) × (v : W) × (s ≡ (panicked p, v)) × (r ≡ (crashed p, v)))
      ⊎ (((e : Error) × (v : W) × (s ≡ (returned (err e), v))
            × (r ≡ (fatal "Cannot setup GrowthBook controllers" e, v)))
          ⊎ ((v : W) × (s ≡ (returned (ok tt), v))
              × (((e : Error) × (v' : W) × (sys.start v ≡ (err e, v'))
                    × (r ≡ (fatal "Cannot start controller manager" e, v')))
                  ⊎ ((v' : W) × (sys.start v ≡ (ok tt, v')) × (r ≡ (finished, v'))))))

  -- The gate is set up first, and the gated controllers only where that succeeds.
  abbrev pub StartsGated : Options Logger Metrics States → W → Exit × W → Type 0
  StartsGated o v r =
      ((e : Error) × (v' : W) × (sys.setup_crd_gate v ≡ (err e, v'))
        × (r ≡ (fatal "Cannot setup CRD gate controller" e, v')))
      ⊎ ((v' : W) × (sys.setup_crd_gate v ≡ (ok tt, v')) × EndsAfter (setup_gated mgr o v') r)

  -- The outcomes of the check, and how the controllers are started after each.
  abbrev pub Starts : Options Logger Metrics States → W → Exit × W → Type 0
  Starts o w r =
      ((e : Error) × (u : W) × (sys.add_authorization_scheme w ≡ (err e, u))
        × (r ≡ (fatal "safe-start precheck failed" e, u)))
      ⊎ ((u : W) × (sys.add_authorization_scheme w ≡ (ok tt, u))
          × (((v : W) × AllAllowed sys verbs u v × StartsGated o v r)
              ⊎ (((v : W) × EndsWith sys (ok false) verbs u v × EndsAfter (setup mgr o v) r)
                  ⊎ ((e : Error) × (v : W) × EndsWith sys (err e) verbs u v
                      × (r ≡ (
                        fatal "safe-start precheck failed"
                            (wrapped "cannot check RBAC for a verb on CustomResourceDefinitions" e),
                        v,
                      ))))))

  started-outcome :
      (v : W) (s : Result (Unit {0}) × W)
      → sys.start v ≡ s
      → EndsAfter
          (returned (ok tt), v)
          (or_exit "Cannot start controller manager" s λ _ w. (finished, w))
  started-outcome v (ok _, v') k = inr (inr (v, refl, inr (v', k, refl)))
  started-outcome v (err e, v') k = inr (inr (v, refl, inl (e, v', k, refl)))

  setup_end-EndsAfter : (s : Ending × W) → EndsAfter s (or_exit_setup s (started sys mgr))
  setup_end-EndsAfter (panicked p, v) = inl (p, v, refl, refl)
  setup_end-EndsAfter (returned (err e), v) = inr (inl (e, v, refl, refl))
  setup_end-EndsAfter (returned (ok _), v) = started-outcome v (sys.start v) refl

  gate-StartsGated :
      (o : Options Logger Metrics States) (v : W) (s : Result (Unit {0}) × W)
      → sys.setup_crd_gate v ≡ s
      → StartsGated o v (
          or_exit "Cannot setup CRD gate controller" s
            λ _ w₁. or_exit_setup (setup_gated mgr o w₁) (started sys mgr))
  gate-StartsGated o v (err e, v') k = inl (e, v', k, refl)
  gate-StartsGated o v (ok _, v') k = inr (v', k, setup_end-EndsAfter (setup_gated mgr o v'))

  abbrev pub after_check : Options Logger Metrics States → Result Bool × W → Exit × W
  after_check o r = or_exit "safe-start precheck failed" r (start_setups sys mgr o)

  after_check-Starts :
      (o : Options Logger Metrics States) (w u : W) (r : Result Bool × W)
      → sys.add_authorization_scheme w ≡ (ok tt, u)
      → ReviewOutcome sys verbs u r
      → Starts o w (after_check o r)
  after_check-Starts o w u r k (inl (v, h, e)) =
      subst (λ r. Starts o w (after_check o r)) (sym e)
        (inr (u, k, inl (v, h, gate-StartsGated o v (sys.setup_crd_gate v) refl)))
  after_check-Starts o w u r k (inr (inl (v, h, e))) =
      subst (λ r. Starts o w (after_check o r)) (sym e)
        (inr (u, k, inr (inl (v, h, setup_end-EndsAfter (setup mgr o v)))))
  after_check-Starts o w u r k (inr (inr (d, v, h, e))) =
      inr (u, k, inr (inr (d, v, h, ap (after_check o) e)))

  after_scheme-Starts :
      (o : Options Logger Metrics States) (w : W) (s : Result (Unit {0}) × W)
      → sys.add_authorization_scheme w ≡ s
      → Starts o w (after_check o (after_scheme sys s))
  after_scheme-Starts o w (err e, u) k = inl (e, u, k, refl)
  after_scheme-Starts o w (ok _, u) k =
      after_check-Starts o w u (review_all sys verbs u) k (review_all-ReviewOutcome sys verbs u)

  -- Get, list and watch are reviewed in this order. Where all are allowed, the CRD gate is set up,
  -- and where that succeeds the gated controllers; a gate that cannot be set up ends the process with
  -- no controller set up. The first verb that is not allowed makes the controllers start without the
  -- gate, with no further review. The manager is started only after a setup that returns no error; a
  -- setup that fails or panics ends the process before. A review that fails, or a scheme that cannot
  -- be extended, ends it before any controller is set up.
  pub start_controllers-Starts :
      (o : Options Logger Metrics States) (w : W) → Starts o w (start_controllers sys mgr o w)
  unfolding start_controllers can_watch_crd
  start_controllers-Starts o w = after_scheme-Starts o w (sys.add_authorization_scheme w) refl
