-- ===== src/Feature/Lifecycle.antt =====
-- The external client of internal/controller/feature/feature.go, over any API client: what each
-- method calls, returns and writes.
use provider_growthbook.Base.{
  String, Bool, true, false, not, List, [], ◌∷◌, ◌≡◌, ◌⊎◌, inl, inr, refl, sym, arith,
  if◌then◌else◌, ap, subst, Bool-cases,
}
use provider_growthbook.Base.Float.{FloatOps}
use provider_growthbook.Apis.Feature.{Feature}
use provider_growthbook.Controller.Managed.{absent}
use provider_growthbook.Growthbook.Errors.{
  Error, Result, ok, err, wrapped, is_not_found, is_archive_required,
}
use provider_growthbook.Growthbook.Feature.{Feature as ApiFeature, FeatureRequest}
use provider_growthbook.Feature.Archive.{
  MustArchive, OnlyArchives, archive_request-OnlyArchives, must_archive, must_archive-MustArchive,
  MustArchive-must_archive,
}
use provider_growthbook.Feature.External.{
  FeatureClient, archive_request, observe_result, observe, delete, deleted_at_last, after_archiving,
  after_delete,
}

pub data Call (Float : Type 0) : Type 0 where
  get_call : String → Call Float
  create_call : FeatureRequest Float → Call Float
  update_call : String → FeatureRequest Float → Call Float
  delete_call : String → Call Float

-- A client that keeps, beside the world, the calls made so far, the last one first.
abbrev pub logged : {A C W : Type 0} → C → List C → Result A × W → Result A × (List C × W)
logged c cs (r, w) = (r, (c ∷ cs, w))

abbrev pub logging :
    {Float W : Type 0} → FeatureClient Float W → FeatureClient Float (List (Call Float) × W)
logging client = record {
  get_feature = λ id s. logged (get_call id) s.0 (client.get_feature id s.1);
  create_feature = λ req s. logged (create_call req) s.0 (client.create_feature req s.1);
  update_feature = λ id req s. logged (update_call id req) s.0 (client.update_feature id req s.1);
  delete_feature = λ id s. logged (delete_call id) s.0 (client.delete_feature id s.1);
}

-- An answer to a request to delete after which the feature is not there.
abbrev pub SaysGone : Result (Unit {0}) → Type 0
SaysGone (ok _) = Unit
SaysGone (err e) = is_not_found e ≡ true

gone_if :
    {W : Type 0} (b : Bool) (x : Error) (w w' : W)
    → ◌≡◌ {A = Result (Unit {0}) × W} (if b then (ok tt, w) else (err x, w)) (ok tt, w')
    → (b ≡ true) × (w ≡ w')
gone_if b x w w' h = ground arith

module _ {Float W : Type 0} where
  -- The calls of the code, by the answers, the last one first.
  abbrev after_archive_calls : String → Result (ApiFeature Float) × W → List (Call Float)
  after_archive_calls id (ok _, w) =
      delete_call id ∷ update_call id archive_request ∷ delete_call id ∷ []
  after_archive_calls id (err _, w) = update_call id archive_request ∷ delete_call id ∷ []

  abbrev deletion_calls : FeatureClient Float W → String → Result (Unit {0}) × W → List (Call Float)
  deletion_calls client id (r, w) =
      if must_archive r
      then after_archive_calls id (client.update_feature id archive_request w)
      else delete_call id ∷ []

module _ {Float W : Type 0} (client : FeatureClient Float W) where
  last_calls :
      (c : Call Float) (cs : List (Call Float)) (r : Result (Unit {0}) × W)
      → (deleted_at_last (logging client) (logged c cs r)).1.0 ≡ c ∷ cs
  last_calls c cs (ok _, w) = refl
  last_calls c cs (err e, w) = ground arith

  archive_calls :
      (id : String) (r : Result (ApiFeature Float) × W)
      → (after_archiving
          (logging client)
          id
          (logged (update_call id archive_request) (delete_call id ∷ []) r)).1.0
        ≡ after_archive_calls id r
  archive_calls id (ok _, w) =
      last_calls (delete_call id) (update_call id archive_request ∷ delete_call id ∷ [])
        (client.delete_feature id w)
  archive_calls id (err e, w) = refl

  delete_calls :
      (id : String) (r : Result (Unit {0}) × W)
      → (after_delete (logging client) id (logged (delete_call id) [] r)).1.0
        ≡ deletion_calls client id r
  delete_calls id (ok _, w) = refl
  delete_calls id (err e, w) =
      ground (arith, archive_calls id (client.update_feature id archive_request w))

  -- The calls of a deletion, the last one first, where the answer `first` to a request to delete is
  -- known.
  abbrev pub CallsAfter : String → Result (Unit {0}) × W → List (Call Float) → Type 0
  CallsAfter id first calls =
      ((MustArchive first.0 → ⊥) × (calls ≡ delete_call id ∷ []))
      ⊎ (MustArchive first.0
          × (req : FeatureRequest Float) × OnlyArchives req
          × (((e : Error) × (w : W) × (client.update_feature id req first.1 ≡ (err e, w))
                × (calls ≡ update_call id req ∷ delete_call id ∷ []))
              ⊎ ((f : ApiFeature Float) × (w : W) × (client.update_feature id req first.1
                    ≡ (ok f, w))
                  × (calls ≡ delete_call id ∷ update_call id req ∷ delete_call id ∷ []))))

  archived_calls :
      (id : String) (first : Result (Unit {0}) × W) (r : Result (ApiFeature Float) × W)
      → MustArchive first.0
      → client.update_feature id archive_request first.1 ≡ r
      → CallsAfter id first (after_archive_calls id r)
  archived_calls id first (ok f, w) must h =
      inr (must, archive_request, archive_request-OnlyArchives, inr (f, w, h, refl))
  archived_calls id first (err e, w) must h =
      inr (must, archive_request, archive_request-OnlyArchives, inl (e, w, h, refl))

  deletion_calls-CallsAfter :
      (id : String) (r : Result (Unit {0}) × W) → CallsAfter id r (deletion_calls client id r)
  deletion_calls-CallsAfter id (r, w) = elim (Bool-cases (must_archive r)) [
    | inl must ↦ rw must (
        archived_calls id (r, w) (client.update_feature id archive_request w)
          (must_archive-MustArchive r must) refl)
    | inr other ↦ rw other (inl (λ must. cc (MustArchive-must_archive r must), refl))
  ]

  -- A deletion asks for the deletion once, and that is its only call, unless the answer is a 403
  -- that says in any case to archive the feature first. Only then does it send one update, which
  -- sets the archived flag and nothing else, and only where that succeeds does it ask a second time;
  -- it makes no other call.
  pub delete-CallsAfter :
      (cr : Feature) (w : W)
      → CallsAfter cr.external_name
          (client.delete_feature cr.external_name w)
          (delete (logging client) cr ([], w)).1.0
  unfolding delete
  delete-CallsAfter cr w =
      let id = cr.external_name in
      let first = client.delete_feature id w in
      subst (CallsAfter id first) (sym (delete_calls id first)) (deletion_calls-CallsAfter id first)

  -- The service reports that there is no such feature.
  abbrev pub IsGone : String → W → Type 0
  IsGone id w = (e : Error) × (is_not_found e ≡ true) × ((client.get_feature id w).0 ≡ err e)

  -- DELETE as GrowthBook documents it: after success, and after the answer that there is no such
  -- feature, the feature is not found.
  abbrev pub DeletesForGood : Type 0
  DeletesForGood =
      (id : String) (w : W)
      → SaysGone (client.delete_feature id w).0
      → IsGone id (client.delete_feature id w).1

module _ {Float W : Type 0} (client : FeatureClient Float W) where
  last-IsGone :
      (id : String) (r : Result (Unit {0}) × W) (w' : W)
      → (SaysGone r.0 → IsGone client id r.1)
      → deleted_at_last client r ≡ (ok tt, w')
      → IsGone client id w'
  last-IsGone id (ok _, w) w' lawful h = subst (IsGone client id) (ap (λ r. r.1) h) (lawful tt)
  last-IsGone id (err e, w) w' lawful h =
      let (gone, e) = gone_if (is_not_found e) _ w w' h in subst (IsGone client id) e (lawful gone)

  archived-IsGone :
      (id : String) (r : Result (ApiFeature Float) × W) (w' : W)
      → DeletesForGood client
      → after_archiving client id r ≡ (ok tt, w')
      → IsGone client id w'
  archived-IsGone id (ok _, w) w' lawful h =
      last-IsGone id (client.delete_feature id w) w' (lawful id w) h
  archived-IsGone id (err e, w) w' lawful h = ground arith

  refused-IsGone :
      (archive : Bool) (id : String) (e : Error) (w w' : W)
      → DeletesForGood client
      → (if not archive
          then (err (wrapped "cannot delete feature" e), w)
          else after_archiving client id (client.update_feature id archive_request w))
        ≡ (ok tt, w')
      → IsGone client id w'
  refused-IsGone true id e w w' lawful h =
      archived-IsGone id (client.update_feature id archive_request w) w' lawful h
  refused-IsGone false id e w w' lawful h = ground arith

  error-IsGone :
      (found : Bool) (id : String) (e : Error) (w w' : W)
      → DeletesForGood client
      → (found ≡ true → IsGone client id w)
      → (if found
          then (ok tt, w)
          else if not (is_archive_required e)
          then (err (wrapped "cannot delete feature" e), w)
          else after_archiving client id (client.update_feature id archive_request w))
        ≡ (ok tt, w')
      → IsGone client id w'
  error-IsGone true id e w w' lawful gone h = subst (IsGone client id) (ap (λ r. r.1) h) (gone refl)
  error-IsGone false id e w w' lawful gone h =
      refused-IsGone (is_archive_required e) id e w w' lawful h

  deleted-IsGone :
      (id : String) (r : Result (Unit {0}) × W) (w' : W)
      → DeletesForGood client
      → (SaysGone r.0 → IsGone client id r.1)
      → after_delete client id r ≡ (ok tt, w')
      → IsGone client id w'
  deleted-IsGone id (ok _, w) w' lawful gone h =
      subst (IsGone client id) (ap (λ r. r.1) h) (gone tt)
  deleted-IsGone id (err e, w) w' lawful gone h =
      error-IsGone (is_not_found e) id e w w' lawful gone h

module _ {Float W : Type 0} ⦃N : FloatOps Float⦄ (client : FeatureClient Float W) where
  absent_result :
      (cr : Feature) (r : Result (ApiFeature Float) × W) (e : Error)
      → is_not_found e ≡ true
      → r.0 ≡ err e
      → (observe_result client cr r).0 ≡ ok absent
  absent_result cr (ok f, w) e gone h = ground arith
  absent_result cr (err d, w) e gone h =
      let missing : is_not_found d ≡ true = ground arith in ground arith

  -- After a deletion that succeeds, Observe reports that the feature does not exist, over a service
  -- that reports a deleted feature as not found.
  pub observe-delete :
      (cr : Feature) (w w' : W)
      → DeletesForGood client
      → delete client cr w ≡ (ok tt, w')
      → (observe client cr w').0 ≡ ok absent
  unfolding delete observe
  observe-delete cr w w' lawful h =
      let id = cr.external_name in
      let (e, gone, h') =
        deleted-IsGone client id (client.delete_feature id w) w' lawful (lawful id w) h in
      absent_result cr (client.get_feature id w') e gone h'
