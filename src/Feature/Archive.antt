-- ===== src/Feature/Archive.antt =====
-- What Delete of internal/controller/feature/feature.go takes as the demand to archive first, and the
-- request that it then sends.
use provider_growthbook.Base.{
  Bool, true, false, Option, none, some, ◌≡◌, ◌↔◌, refl, subst, arith, nat_eq, if◌then◌else◌,
  Bool-cases, inl, inr,
}
use provider_growthbook.Growthbook.Text.{utf8, contains, to_lower}
use provider_growthbook.Growthbook.Errors.{
  ApiError, Error, Result, ok, err, as_api_error, is_not_found, is_archive_required, archive_error,
}
use provider_growthbook.Growthbook.Feature.{FeatureRequest}
use provider_growthbook.Feature.External.{archive_request}
use provider_growthbook.Feature.Absence.{SaysAbsent, is_not_found_iff}

-- A 403 whose message asks, in any case, to archive the feature first.
abbrev pub SaysArchive : ApiError → Type 0
SaysArchive ae =
    (ae.status_code ≡ 403)
    × (contains (to_lower ae.message) (utf8 "archive the feature first") ≡ true)

-- The deletion was refused, in an `APIError` that asks to archive first.
abbrev pub MustArchive : Result (Unit {0}) → Type 0
MustArchive r =
    (e : Error) × (ae : ApiError) × (r ≡ err e) × (as_api_error e ≡ some ae) × SaysArchive ae

-- The request sets the archived flag and has no other member.
pub record OnlyArchives {Float : Type 0} (req : FeatureRequest Float) : Type 0 where
  pub id : req.id ≡ ""
  pub value_type : req.value_type ≡ ""
  pub default_value : req.default_value ≡ ""
  pub description : req.description ≡ none
  pub project : req.project ≡ none
  pub tags : req.tags ≡ none
  pub archived : req.archived ≡ some true
  pub owner : req.owner ≡ none
  pub environments : req.environments ≡ none
  pub rules : req.rules ≡ none

pub archive_request-OnlyArchives : {Float : Type 0} → OnlyArchives (archive_request {Float = Float})
archive_request-OnlyArchives = record {
  id = refl;
  value_type = refl;
  default_value = refl;
  description = refl;
  project = refl;
  tags = refl;
  archived = refl;
  owner = refl;
  environments = refl;
  rules = refl;
}

archive_error-SaysArchive_iff : (ae : ApiError) → (archive_error ae ≡ true) ↔ SaysArchive ae
archive_error-SaysArchive_iff ae = ground arith

abbrev archive_wanted : Option ApiError → Bool
archive_wanted o = elim o [ none ↦ false | some ae ↦ archive_error ae ]

archive_wanted_iff :
    (o : Option ApiError)
    → (archive_wanted o ≡ true) ↔ ((ae : ApiError) × (o ≡ some ae) × SaysArchive ae)
archive_wanted_iff none = (λ h. ground arith, λ (ae, e, h). ground arith)
archive_wanted_iff (some ae) = (
  λ h. (ae, refl, (archive_error-SaysArchive_iff ae).0 h),
  λ (ae', e, h).
      let same : ae' ≡ ae = ground arith in
      subst (λ a. archive_error a ≡ true) same ((archive_error-SaysArchive_iff ae').1 h),
)

is_archive_required_iff :
    (e : Error)
    → (is_archive_required e ≡ true)
      ↔ ((ae : ApiError) × (as_api_error e ≡ some ae) × SaysArchive ae)
unfolding is_archive_required
is_archive_required_iff e = archive_wanted_iff (as_api_error e)

-- A 403 never says that the feature is absent.
archive-not_absent : (ae : ApiError) → SaysArchive ae → SaysAbsent ae → ⊥
archive-not_absent ae h k = ground arith

abbrev pub must_archive : Result (Unit {0}) → Bool
must_archive (ok _) = false
must_archive (err e) = if is_not_found e then false else is_archive_required e

pub must_archive-MustArchive : (r : Result (Unit {0})) → must_archive r ≡ true → MustArchive r
must_archive-MustArchive (ok _) h = ground arith
must_archive-MustArchive (err e) h =
    let required : is_archive_required e ≡ true = ground arith in
    let (ae, same, says) = (is_archive_required_iff e).0 required in (e, ae, refl, same, says)

found_if_archive :
    (e : Error) (ae : ApiError)
    → as_api_error e ≡ some ae
    → SaysArchive ae
    → is_not_found e ≡ true
    → ⊥
found_if_archive e ae same says h =
    let (ae', same', absent) = (is_not_found_iff e).0 h in
    let eq : ae' ≡ ae = ground arith in archive-not_absent ae says (subst SaysAbsent eq absent)

pub MustArchive-must_archive : (r : Result (Unit {0})) → MustArchive r → must_archive r ≡ true
MustArchive-must_archive (ok _) (e, ae, h, same, says) = ground arith
MustArchive-must_archive (err d) (e, ae, h, same, says) =
    let eq : e ≡ d = ground arith in
    let same_d : as_api_error d ≡ some ae = subst (λ x. as_api_error x ≡ some ae) eq same in
    elim (Bool-cases (is_not_found d)) [
      | inl gone ↦ absurd (found_if_archive d ae same_d says gone)
      | inr other ↦ rw other ((is_archive_required_iff d).1 (ae, same_d, says))
    ]
