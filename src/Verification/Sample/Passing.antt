-- ===== src/Verification/Sample/Passing.antt =====
-- packages/domain/verification.py: when `evaluate_sample` finds that an observation passes.
use incident_triage.Base.{
  ◌≡◌, ◌↔◌, refl, Bool, true, ◌&&◌, none, some, List, [], ◌∷◌, arith, All, all, map, find, is_empty,
  String, ap,
}
use incident_triage.Builtins.{Builtins}
use incident_triage.Verification.Spec.{CheckSpec, VerificationSpec}
use incident_triage.Verification.Sample.Meaning.{MetFor, check_kind-MetFor}
use incident_triage.Verification.Sample.{
  Sample, CheckResult, check_sample, evaluate_sample, is_ok, is_evaluated, is_definitive_failure,
}

module _ (py : Builtins) (sample : Sample) where
  -- The sample meets what the check asks.
  abbrev pub Holds : CheckSpec → Type 0
  Holds c = MetFor py sample c.kind c

  check_sample-Holds : (c : CheckSpec) → ((check_sample py sample c).ok ≡ some true) ↔ Holds c
  unfolding check_sample
  check_sample-Holds c = check_kind-MetFor py c c.kind sample

  is_ok_iff : (r : CheckResult) → (is_ok r ≡ true) ↔ (r.ok ≡ some true)
  is_ok_iff r = ground arith

  all_ok_iff :
      (cs : List CheckSpec) → (all is_ok (map (check_sample py sample) cs) ≡ true) ↔ All Holds cs
  all_ok_iff [] = (λ h. tt, λ h. refl)
  all_ok_iff (c ∷ cs) =
      ground (arith, all_ok_iff cs, is_ok_iff (check_sample py sample c), check_sample-Holds c)

  all_evaluated :
      (cs : List CheckSpec)
      → All Holds cs
      → all is_evaluated (map (check_sample py sample) cs) ≡ true
  all_evaluated [] h = refl
  all_evaluated (c ∷ cs) h = ground (arith, all_evaluated cs h.1, (check_sample-Holds c).1 h.0)

  no_failure :
      (cs : List CheckSpec)
      → All Holds cs
      → find is_definitive_failure (map (check_sample py sample) cs) ≡ none
  no_failure [] h = refl
  no_failure (c ∷ cs) h = ground (arith, no_failure cs h.1, (check_sample-Holds c).1 h.0)

  is_empty-eq : (xs : List String) → is_empty xs ≡ true → xs ≡ []
  is_empty-eq [] h = refl
  is_empty-eq (x ∷ xs) h = cc

  three : (a b c : Bool) → ((a && b) && c) ≡ true → (a ≡ true) × (b ≡ true) × (c ≡ true)
  three a b c h = ground arith

  conclusive_part : (a b c : Bool) → ((a && b) && c) ≡ true → (a && b) ≡ true
  conclusive_part a b c h = ground arith

  three_true : (a b c : Bool) → a ≡ true → b ≡ true → c ≡ true → ((a && b) && c) ≡ true
  three_true a b c p q r = ground arith

  -- An observation passes exactly when every source could be read without an error and the sample
  -- meets what each check of the specification asks: the deployed version, a configuration value
  -- or a number of replicas is the expected one, a flag reads "false", the health is "healthy", a
  -- metric is present and at most the check's limit, or no new alert fires. It then is conclusive
  -- and has no definitive failure.
  pub evaluate_sample-passed :
      (spec : VerificationSpec)
      → let r = evaluate_sample py spec sample in
        ((r.passed ≡ true) ↔ ((sample.errors ≡ []) × All Holds spec.checks))
        × (r.passed ≡ true → (r.conclusive ≡ true) × (r.definitive_failure ≡ none))
  unfolding evaluate_sample
  evaluate_sample-passed spec =
      let results = map (check_sample py sample) spec.checks in
      let a = is_empty sample.errors in
      let b = all is_evaluated results in
      let c = all is_ok results in
      (
        (
          λ h.
              let (p, q, r) = three a b c h in
              (is_empty-eq sample.errors p, (all_ok_iff spec.checks).0 r),
          λ h.
              three_true a b c (ap is_empty h.0) (all_evaluated spec.checks h.1)
                ((all_ok_iff spec.checks).1 h.1),
        ),
        λ h. (
          conclusive_part a b c h,
          no_failure spec.checks ((all_ok_iff spec.checks).0 (three a b c h).2),
        ),
      )
