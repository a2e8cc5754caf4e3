-- ===== src/Verification/Sample/Meaning.antt =====
-- packages/domain/verification.py: what each kind of check asks of a sample.
use incident_triage.Base.{
  ℕ, ◌≤◌, ◌≡◌, ◌≢◌, ◌↔◌, ◌⊎◌, inl, inr, refl, ap, ◌∙◌, subst, Bool, true, false, Option, none, some,
  String, arith, Value, null, flag, int, text, other, Document, get_or, lookup, Bool-cases,
  string_eq, nat_eq, ◌==◌, eq_iff, if◌then◌else◌,
}
use incident_triage.Builtins.{Builtins}
use incident_triage.Verification.Policy.{
  CheckKind, state_deployment_version, state_config_value, state_flag, state_replicas,
  health_status, metric_max, alerts_no_new_firing,
}
use incident_triage.Verification.Spec.{CheckSpec}
use incident_triage.Verification.Sample.{
  Sample, Health, Runtime, Reading, number, described, unreadable, check_kind, signal_of,
  check_deployment, check_config, check_flag, check_replicas, check_health, check_metric,
  check_alerts, same_value, is_null, text_or_empty, reading_number, sample_metric, limit_or_zero,
}

-- JSON values that are equal in Python have the same canonical value: a flag is a number.
abbrev pub canonical : Value → Value
canonical (flag true) = int 1
canonical (flag false) = int 0
canonical v = v

-- The health report has a readable signal of that name.
abbrev pub IsMeasured : Sample → Option String → ℕ → Type 0
IsMeasured sample metric m =
    (name : String) × (h : Health) × (metric ≡ some name)
    × (name ≢ "")
    × (sample.health ≡ some h)
    × ((lookup name h.signals ≡ some (number m))
        ⊎ (lookup name h.signals ≡ some (described (some m))))

module _ (py : Builtins) (sample : Sample) where
  -- What a check of each kind asks.
  abbrev pub MetFor : CheckKind → CheckSpec → Type 0
  MetFor state_deployment_version c =
      (d : Document) × (sample.deployment ≡ some d)
      × (canonical (get_or "version" null d) ≡ canonical c.expected)
  MetFor state_config_value c =
      (d : Document) × (sample.config ≡ some d)
      × (py.str_of (get_or (text_or_empty c.key) null d) ≡ py.str_of c.expected)
  MetFor state_flag c =
      (r : Runtime) × (sample.runtime ≡ some r)
      × (py.lower (py.str_of (get_or (text_or_empty c.key) null r.flags)) ≡ "false")
  MetFor state_replicas c =
      (r : Runtime) × (sample.runtime ≡ some r)
      × (c.expected ≢ null)
      × (canonical r.replicas ≡ canonical c.expected)
  MetFor health_status c = (h : Health) × (sample.health ≡ some h) × (h.status ≡ text "healthy")
  MetFor metric_max c = (m : ℕ) × IsMeasured sample c.metric m × (m ≤ limit_or_zero c.max_value)
  MetFor alerts_no_new_firing c = sample.new_firing_alerts ≡ some 0

same_value_iff : (v w : Value) → (same_value v w ≡ true) ↔ (canonical v ≡ canonical w)
same_value_iff null w = ground arith
same_value_iff (flag true) w = ground arith
same_value_iff (flag false) w = ground arith
same_value_iff (int m) w = ground arith
same_value_iff (text s) (text t) = ground (arith, eq_iff s t)
same_value_iff (text s) w = ground arith
same_value_iff (other m) w = ground arith

some-true : (b : Bool) → (some b ≡ some true) ↔ (b ≡ true)
some-true b = ground arith

reading_number_iff :
    (r : Option Reading) (m : ℕ)
    → (reading_number r ≡ some m) ↔ ((r ≡ some (number m)) ⊎ (r ≡ some (described (some m))))
reading_number_iff none m = ground arith
reading_number_iff (some (number x)) m = ground arith
reading_number_iff (some (described x)) m = ground arith
reading_number_iff (some unreadable) m = ground arith

signal_iff :
    (name : String) (source : Option Health) (m : ℕ)
    → (signal_of name source ≡ some m) ↔ (
        (h : Health) × (source ≡ some h)
        × ((lookup name h.signals ≡ some (number m))
            ⊎ (lookup name h.signals ≡ some (described (some m)))))
signal_iff name none m = (λ h. cc, λ h. cc (h.1))
signal_iff name (some h) m = (
  λ e. (h, refl, (reading_number_iff (lookup name h.signals) m).0 e),
  λ (h', same, found).
      ap (signal_of name) same ∙ (reading_number_iff (lookup name h'.signals) m).1 found,
)

sample_metric_iff :
    (sample : Sample) (metric : Option String) (m : ℕ)
    → (sample_metric sample metric ≡ some m) ↔ IsMeasured sample metric m
sample_metric_iff sample none m = (λ h. cc, λ h. cc (h.2))
sample_metric_iff sample (some name) m = elim (Bool-cases (name == "")) [
  | inl empty ↦ rw empty (
    λ h. cc,
    λ (name', h, same, filled, source, found).
        absurd (filled (cc (same, (eq_iff name "").0 empty))),
  )
  | inr named ↦ rw named (
    λ e.
        let (h, source, found) = (signal_iff name sample.health m).0 e in
        (name, h, refl, λ blank. cc (named, (eq_iff name "").1 blank), source, found),
    λ (name', h, same, filled, source, found). (signal_iff name sample.health m).1 (
      h,
      source,
      subst
          (λ n.
            (lookup n h.signals ≡ some (number m))
            ⊎ (lookup n h.signals ≡ some (described (some m))))
          (cc same) found,
    ),
  )
]

some_iff {ℓ κ} : {A : Type ℓ} (P : A → Type κ) (a : A) → ((b : A) × (some a ≡ some b) × P b) ↔ P a
some_iff P a = (λ (b, same, h). subst P (cc same) h, λ h. (a, refl, h))

healthy_iff : (v : Value) → (same_value v (text "healthy") ≡ true) ↔ (v ≡ text "healthy")
healthy_iff (text s) = ground (arith, eq_iff s "healthy")
healthy_iff null = ground arith
healthy_iff (flag true) = ground arith
healthy_iff (flag false) = ground arith
healthy_iff v = ground arith

module _ (py : Builtins) (c : CheckSpec) where
  deployment_iff :
      (source : Option Document)
      → ((check_deployment py c source).ok ≡ some true) ↔ (
          (d : Document) × (source ≡ some d)
          × (canonical (get_or "version" null d) ≡ canonical c.expected))
  deployment_iff none = (λ h. cc, λ h. cc (h.1))
  deployment_iff (some d) = ground (
    arith,
    same_value_iff (get_or "version" null d) c.expected,
    some_iff (λ d'. canonical (get_or "version" null d') ≡ canonical c.expected) d,
  )

  config_iff :
      (source : Option Document)
      → ((check_config py c source).ok ≡ some true) ↔ (
          (d : Document) × (source ≡ some d)
          × (py.str_of (get_or (text_or_empty c.key) null d) ≡ py.str_of c.expected))
  config_iff none = (λ h. cc, λ h. cc (h.1))
  config_iff (some d) = ground (
    arith,
    eq_iff (py.str_of (get_or (text_or_empty c.key) null d)) (py.str_of c.expected),
    some_iff (λ d'. py.str_of (get_or (text_or_empty c.key) null d') ≡ py.str_of c.expected) d,
  )

  flag_iff :
      (source : Option Runtime)
      → ((check_flag py c source).ok ≡ some true) ↔ (
          (r : Runtime) × (source ≡ some r)
          × (py.lower (py.str_of (get_or (text_or_empty c.key) null r.flags)) ≡ "false"))
  flag_iff none = (λ h. cc, λ h. cc (h.1))
  flag_iff (some r) = ground (
    arith,
    eq_iff (py.lower (py.str_of (get_or (text_or_empty c.key) null r.flags))) "false",
    some_iff
        (λ (r' : Runtime).
          py.lower (py.str_of (get_or (text_or_empty c.key) null r'.flags)) ≡ "false")
        r,
  )

  is_null_iff : (v : Value) → (is_null v ≡ false) ↔ (v ≢ null)
  is_null_iff v = ground arith

  expected_iff :
      (v expected : Value)
      → ((if is_null expected then none else some (same_value v expected)) ≡ some true)
        ↔ ((expected ≢ null) × (canonical v ≡ canonical expected))
  expected_iff v expected = elim (Bool-cases (is_null expected)) [
    | inl absent ↦ rw absent (λ h. cc, λ h. cc (absent, (is_null_iff expected).1 h.0))
    | inr present ↦ rw present (
      λ h. (
        (is_null_iff expected).0 present,
        (same_value_iff v expected).0 ((some-true (same_value v expected)).0 h),
      ),
      λ h. ap some ((same_value_iff v expected).1 h.1),
    )
  ]

  replicas_iff :
      (source : Option Runtime)
      → ((check_replicas py c source).ok ≡ some true) ↔ (
          (r : Runtime) × (source ≡ some r)
          × (c.expected ≢ null)
          × (canonical r.replicas ≡ canonical c.expected))
  replicas_iff none = (λ h. cc, λ h. cc (h.1))
  replicas_iff (some r) = (
    λ h. let (asks, equal) = (expected_iff r.replicas c.expected).0 h in (r, refl, asks, equal),
    λ (r', same, asks, equal).
        let is : r ≡ r' = cc same in
        (expected_iff r.replicas c.expected).1
          (asks, ap (λ (x : Runtime). canonical x.replicas) is ∙ equal),
  )

  health_iff :
      (source : Option Health)
      → ((check_health py c source).ok ≡ some true)
        ↔ ((h : Health) × (source ≡ some h) × (h.status ≡ text "healthy"))
  health_iff none = (λ h. cc, λ h. cc (h.1))
  health_iff (some r) =
      ground (arith, healthy_iff r.status, some_iff (λ (r' : Health). r'.status ≡ text "healthy") r)

  metric_iff :
      (o : Option ℕ)
      → ((check_metric py c o).ok ≡ some true)
        ↔ ((m : ℕ) × (o ≡ some m) × (m ≤ limit_or_zero c.max_value))
  metric_iff none = (λ h. cc, λ h. cc (h.1))
  metric_iff (some m) = (λ h. (m, refl, ground arith), λ h. ground arith)

  alerts_iff : (o : Option ℕ) → ((check_alerts py c o).ok ≡ some true) ↔ (o ≡ some 0)
  alerts_iff o = ground arith

  -- What a check finds to hold is what its kind asks.
  pub check_kind-MetFor :
      (k : CheckKind) (sample : Sample)
      → ((check_kind py k sample c).ok ≡ some true) ↔ MetFor py sample k c
  check_kind-MetFor state_deployment_version sample = deployment_iff sample.deployment
  check_kind-MetFor state_config_value sample = config_iff sample.config
  check_kind-MetFor state_flag sample = flag_iff sample.runtime
  check_kind-MetFor state_replicas sample = replicas_iff sample.runtime
  check_kind-MetFor health_status sample = health_iff sample.health
  check_kind-MetFor metric_max sample = (
    λ h.
        let (m, read, under) = (metric_iff (sample_metric sample c.metric)).0 h in
        (m, (sample_metric_iff sample c.metric m).0 read, under),
    λ (m, measured, under).
        (metric_iff (sample_metric sample c.metric)).1
          (m, (sample_metric_iff sample c.metric m).1 measured, under),
  )
  check_kind-MetFor alerts_no_new_firing sample = alerts_iff sample.new_firing_alerts
