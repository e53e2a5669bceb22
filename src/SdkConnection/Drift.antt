-- ===== src/SdkConnection/Drift.antt =====
-- `isUpToDate` of internal/controller/sdkconnection/convert.go against `ConnectionMatches`.
use provider_growthbook.Base.{
  String, Bool, true, false, ◌&&◌, Option, none, some, List, [], ◌∷◌, ◌≡◌, refl, ◌↔◌, arith, ◌==◌,
  nat_eq, string_eq, bool_eq, ==_refl,
}
use provider_growthbook.Base.Lists.{length, elems, All}
use provider_growthbook.Base.Sort.{sort_strings, sort_strings-eq_iff_perm}
use provider_growthbook.Apis.SdkConnection.{SdkConnectionParameters}
use provider_growthbook.Growthbook.SdkConnection.{SdkConnection as ApiConnection}
use provider_growthbook.Feature.RulesDrift.{pairwise}
use provider_growthbook.Feature.Matches.{Agrees, AgreesAsSet}
use provider_growthbook.Feature.UpToDate.{text_differs_iff, flag_differs_iff}
use provider_growthbook.SdkConnection.Convert.{
  language_in, language_matches, normalize, string_slices_equal, slices_differ,
  identity_fields_up_to_date, scope_fields_up_to_date, scalar_fields_up_to_date, check_fails,
  bool_checks, checks_pass, bool_fields_up_to_date, is_up_to_date,
}
use provider_growthbook.SdkConnection.Matches.{Occurs, Switched, SwitchesMatch, ConnectionMatches}
use text.Mathlib.TextEquality.{eq_iff}

language_in_iff :
    (desired : String) (actual : List String)
    → (language_in desired actual ≡ true) ↔ Occurs desired actual
unfolding language_in
language_in_iff desired [] = ground arith
language_in_iff desired (l ∷ actual) =
    ground (arith, eq_iff l desired, language_in_iff desired actual)

pairwise_sound :
    (a b : List String) → length a ≡ length b → pairwise (λ x y. x == y) a b ≡ true → a ≡ b
unfolding pairwise
pairwise_sound [] [] n h = refl
pairwise_sound [] (y ∷ b) n h = ground arith
pairwise_sound (x ∷ a) [] n h = ground arith
pairwise_sound (x ∷ a) (y ∷ b) n h = ground (arith, eq_iff x y, pairwise_sound a b)

pairwise_refl : (a : List String) → pairwise (λ x y. x == y) a a ≡ true
unfolding pairwise
pairwise_refl [] = refl
pairwise_refl (x ∷ a) = rw (==_refl x) (pairwise_refl a)

string_slices_equal_iff : (a b : List String) → (string_slices_equal a b ≡ true) ↔ (a ≡ b)
unfolding string_slices_equal
string_slices_equal_iff a b = ground (arith, pairwise_sound a b, pairwise_refl a)

slices_differ_iff :
    (p ext : Option (List String)) → (slices_differ p ext ≡ false) ↔ AgreesAsSet p ext
unfolding normalize
slices_differ_iff none ext = ground arith
slices_differ_iff (some p) ext = ground (
  arith,
  string_slices_equal_iff (sort_strings p) (sort_strings (elems ext)),
  sort_strings-eq_iff_perm p (elems ext),
)

check_fails_iff :
    (desired actual : Option Bool)
    → (check_fails (desired, actual) ≡ false) ↔ Switched desired actual
check_fails_iff none actual = ground arith
check_fails_iff (some desired) none = ground arith
check_fails_iff (some desired) (some actual) = ground arith

checks_pass_iff :
    (checks : List (Option Bool × Option Bool))
    → (checks_pass checks ≡ true) ↔ All (λ c. Switched c.0 c.1) checks
unfolding checks_pass
checks_pass_iff [] = ground arith
checks_pass_iff ((desired, actual) ∷ checks) =
    ground (arith, check_fails_iff desired actual, checks_pass_iff checks)

All-SwitchesMatch :
    (p : SdkConnectionParameters) (sc : ApiConnection)
    → All (λ c. Switched c.0 c.1) (bool_checks p sc)
    → SwitchesMatch p sc
All-SwitchesMatch p sc
      (
        s0,
        (s1, (s2, (s3, (s4, (s5, (s6, (s7, (s8, (s9, (s10, (s11, (s12, (s13, nil_left))))))))))))),
      ) =
    record {
      include_visual_experiments = s0;
      include_draft_experiments = s1;
      include_draft_experiment_refs = s2;
      include_experiment_names = s3;
      include_redirect_experiments = s4;
      include_rule_ids = s5;
      include_project_id_in_metadata = s6;
      include_custom_fields_in_metadata = s7;
      include_tags_in_metadata = s8;
      include_experiment_schedule_in_metadata = s9;
      hash_secure_attributes = s10;
      remote_eval_enabled = s11;
      saved_group_references_enabled = s12;
      include_referenced_prerequisites = s13;
    }

SwitchesMatch-All :
    (p : SdkConnectionParameters) (sc : ApiConnection)
    → SwitchesMatch p sc
    → All (λ c. Switched c.0 c.1) (bool_checks p sc)
SwitchesMatch-All p sc m = (
  m.include_visual_experiments,
  (
    m.include_draft_experiments,
    (
      m.include_draft_experiment_refs,
      (
        m.include_experiment_names,
        (
          m.include_redirect_experiments,
          (
            m.include_rule_ids,
            (
              m.include_project_id_in_metadata,
              (
                m.include_custom_fields_in_metadata,
                (
                  m.include_tags_in_metadata,
                  (
                    m.include_experiment_schedule_in_metadata,
                    (
                      m.hash_secure_attributes,
                      (
                        m.remote_eval_enabled,
                        (
                          m.saved_group_references_enabled,
                          (m.include_referenced_prerequisites, tt),
                        ),
                      ),
                    ),
                  ),
                ),
              ),
            ),
          ),
        ),
      ),
    ),
  ),
)

bool_fields_up_to_date_iff :
    (p : SdkConnectionParameters) (sc : ApiConnection)
    → (bool_fields_up_to_date p sc ≡ true) ↔ SwitchesMatch p sc
unfolding bool_fields_up_to_date
bool_fields_up_to_date_iff p sc = (
  λ h. All-SwitchesMatch p sc ((checks_pass_iff (bool_checks p sc)).0 h),
  λ m. (checks_pass_iff (bool_checks p sc)).1 (SwitchesMatch-All p sc m),
)

identity_iff :
    (p : SdkConnectionParameters) (sc : ApiConnection)
    → (identity_fields_up_to_date p sc ≡ true) ↔ (
        (p.name ≡ sc.name)
        × (p.environment ≡ sc.environment)
        × Occurs p.language (elems sc.languages))
unfolding identity_fields_up_to_date language_matches
identity_iff p sc = ground (
  arith,
  eq_iff p.name sc.name,
  eq_iff p.environment sc.environment,
  language_in_iff p.language (elems sc.languages),
)

scope_iff :
    (p : SdkConnectionParameters) (sc : ApiConnection)
    → (scope_fields_up_to_date p sc ≡ true) ↔ (
        AgreesAsSet p.projects sc.projects
        × AgreesAsSet p.allowed_custom_fields_in_metadata sc.allowed_custom_fields_in_metadata)
unfolding scope_fields_up_to_date
scope_iff p sc = ground (
  arith,
  slices_differ_iff p.projects sc.projects,
  slices_differ_iff p.allowed_custom_fields_in_metadata sc.allowed_custom_fields_in_metadata,
)

scalar_iff :
    (p : SdkConnectionParameters) (sc : ApiConnection)
    → (scalar_fields_up_to_date p sc ≡ true) ↔ (
        Agrees p.sdk_version sc.sdk_version
        × Agrees p.encrypt_payload sc.encrypt_payload
        × Agrees p.proxy_enabled sc.proxy_enabled
        × Agrees p.proxy_host sc.proxy_host)
unfolding scalar_fields_up_to_date
scalar_iff p sc = ground (
  arith,
  text_differs_iff p.sdk_version sc.sdk_version,
  flag_differs_iff p.encrypt_payload sc.encrypt_payload,
  flag_differs_iff p.proxy_enabled sc.proxy_enabled,
  text_differs_iff p.proxy_host sc.proxy_host,
)

all_parts :
    (a b c d : Bool)
    → ((a && b && c && d) ≡ true) ↔ ((a ≡ true) × (b ≡ true) × (c ≡ true) × (d ≡ true))
all_parts a b c d = ground arith

-- An SDKConnection is up to date exactly when its name and environment are the observed ones, its
-- language is one of the reported ones, each list that the user set is the observed one up to its
-- order, and each other optional field that the user set has the observed value.
pub is_up_to_date-ConnectionMatches_iff :
    (p : SdkConnectionParameters) (sc : ApiConnection)
    → (is_up_to_date p sc ≡ true) ↔ ConnectionMatches p sc
unfolding is_up_to_date
is_up_to_date-ConnectionMatches_iff p sc =
    let parts =
      all_parts (identity_fields_up_to_date p sc) (scope_fields_up_to_date p sc)
        (scalar_fields_up_to_date p sc) (bool_fields_up_to_date p sc) in
    (
      λ h.
          let (i, s, c, b) = parts.0 h in
          let (name, environment, language) = (identity_iff p sc).0 i in
          let (projects, allowed) = (scope_iff p sc).0 s in
          let (sdk_version, encrypt_payload, proxy_enabled, proxy_host) = (scalar_iff p sc).0 c in
          record {
            name = name;
            environment = environment;
            language = language;
            projects = projects;
            allowed_custom_fields_in_metadata = allowed;
            sdk_version = sdk_version;
            encrypt_payload = encrypt_payload;
            proxy_enabled = proxy_enabled;
            proxy_host = proxy_host;
            switches = (bool_fields_up_to_date_iff p sc).0 b;
          },
      λ m. parts.1 (
        (identity_iff p sc).1 (m.name, m.environment, m.language),
        (scope_iff p sc).1 (m.projects, m.allowed_custom_fields_in_metadata),
        (scalar_iff p sc).1 (m.sdk_version, m.encrypt_payload, m.proxy_enabled, m.proxy_host),
        (bool_fields_up_to_date_iff p sc).1 m.switches,
      ),
    )
