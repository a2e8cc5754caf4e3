-- ===== src/Correlation/Engine/Best.antt =====
-- packages/domain/correlation_engine.py: the search over the candidates, against its
-- description: the first candidate of the highest score.
use incident_triage.Base.{
  ◌≡◌, refl, ◌⊎◌, inl, inr, true, false, none, some, List, [], ◌∷◌, ◌++◌, arith, Bool-cases, All,
  All-append, ap,
}
use incident_triage.Floats.{Floats, IsOrdered}
use incident_triage.Correlation.Rules.{NewAlertContext, CorrelationCandidate}
use incident_triage.Correlation.Engine.{
  correlate, new_incident, key_or, CorrelationEngine, CorrelationDecision, score_of, signals_of,
  Search, consider, search_candidates, decide,
}

module _ (fl : Floats) (order : IsOrdered fl) where
  open fl use {Float, lt, le}

  lt_trans : (a b c : Float) → lt a b ≡ true → lt b c ≡ true → lt a c ≡ true
  lt_trans a b c p q = ground (
    arith,
    order.lt_eq a b,
    order.lt_eq b c,
    order.lt_eq a c,
    order.le_total b a,
    order.le_trans c a b,
  )

  le-lt_trans : (a b c : Float) → le a b ≡ true → lt b c ≡ true → lt a c ≡ true
  le-lt_trans a b c p q = ground (arith, order.lt_eq b c, order.lt_eq a c, order.le_trans c a b)

  not-lt : (a b : Float) → lt a b ≡ false → le b a ≡ true
  not-lt a b p = ground (arith, order.lt_eq a b)

  module _ (engine : CorrelationEngine fl) (alert : NewAlertContext) where
    abbrev score : CorrelationCandidate → Float
    score = score_of fl engine alert

    abbrev pub IsBelow : CorrelationCandidate → CorrelationCandidate → Type 0
    IsBelow b c = lt (score c) (score b) ≡ true

    abbrev pub IsAtMost : CorrelationCandidate → CorrelationCandidate → Type 0
    IsAtMost b c = le (score c) (score b) ≡ true

    -- `b` is the first of the candidates whose score no other exceeds.
    abbrev pub IsFirstBest : List CorrelationCandidate → CorrelationCandidate → Type 0
    IsFirstBest cs b =
        (before : List CorrelationCandidate) × (after : List CorrelationCandidate) × (cs
          ≡ before ++ (b ∷ after))
        × All (IsBelow b) before
        × All (IsAtMost b) after

    abbrev found : CorrelationCandidate → Search fl
    found b = record {
      best_candidate = some b;
      best_score = score b;
      best_signals = signals_of fl engine alert b;
    }

    -- From a best candidate `b`, the search stays with it or finds a better one in the rest.
    search_found :
        (b : CorrelationCandidate) (cs : List CorrelationCandidate)
        → ((search_candidates fl engine alert (found b) cs ≡ found b) × All (IsAtMost b) cs)
          ⊎ ((b' : CorrelationCandidate) × (search_candidates fl engine alert (found b) cs
                ≡ found b')
              × (lt (score b) (score b') ≡ true)
              × IsFirstBest cs b')
    unfolding search_candidates consider
    search_found b [] = inl (refl, tt)
    search_found b (c ∷ cs) = elim (Bool-cases (lt (score b) (score c))) [
      | inl better ↦ rw better (elim (search_found c cs) [
        | inl (same, rest) ↦ inr (c, same, better, ([], cs, refl, tt, rest))
        | inr (b', eq, up, (before, after, split, below, most)) ↦ inr (
          b',
          eq,
          lt_trans _ _ _ better up,
          (c ∷ before, after, ap (◌∷◌ c) split, (up, below), most),
        )
      ])
      | inr worse ↦ rw worse (elim (search_found b cs) [
        | inl (same, rest) ↦ inl (same, (not-lt _ _ worse, rest))
        | inr (b', eq, up, (before, after, split, below, most)) ↦ inr (
          b',
          eq,
          up,
          (
            c ∷ before,
            after,
            ap (◌∷◌ c) split,
            (le-lt_trans _ _ _ (not-lt _ _ worse) up, below),
            most,
          ),
        )
      ])
    ]

    -- The search over all candidates ends with a first best one, unless there are none.
    search_all :
        (c : CorrelationCandidate) (cs : List CorrelationCandidate)
        → (b : CorrelationCandidate) × (search_candidates fl engine alert (found c) cs ≡ found b)
          × IsFirstBest (c ∷ cs) b
    search_all c cs = elim (search_found c cs) [
      | inl (same, rest) ↦ (c, same, ([], cs, refl, tt, rest))
      | inr (b, eq, up, (before, after, split, below, most)) ↦
          (b, eq, (c ∷ before, after, ap (◌∷◌ c) split, (up, below), most))
    ]

    abbrev IsUnder : CorrelationCandidate → Type 0
    IsUnder c = lt (score c) engine.threshold ≡ true

    lt→le : (a b : Float) → lt a b ≡ true → le a b ≡ true
    lt→le a b p = ground (arith, order.lt_eq a b, order.le_total b a)

    above-All :
        (x : Float) (cs : List CorrelationCandidate)
        → lt x engine.threshold ≡ true
        → All (λ c. le (score c) x ≡ true) cs
        → All IsUnder cs
    above-All x [] low h = tt
    above-All x (c ∷ cs) low h = (le-lt_trans _ _ _ h.0 low, above-All x cs low h.1)

    above_before :
        (x : Float) (cs : List CorrelationCandidate)
        → All (λ c. lt (score c) x ≡ true) cs
        → All (λ c. le (score c) x ≡ true) cs
    above_before x [] h = tt
    above_before x (c ∷ cs) h = (lt→le _ _ h.0, above_before x cs h.1)

    le_refl : (a : Float) → le a a ≡ true
    le_refl a = ground (arith, order.le_total a a)

    -- No candidate exceeds the first best one.
    best-All :
        (cs : List CorrelationCandidate) (b : CorrelationCandidate)
        → IsFirstBest cs b
        → All (IsAtMost b) cs
    best-All cs b (before, after, split, below, most) = rw split (
        All-append (IsAtMost b) before (b ∷ after) (above_before (score b) before below)
          (le_refl (score b), most))

    -- Either `b` is the choice, with its score, signals, id and key, or none is good enough.
    abbrev pub Chooses : List CorrelationCandidate → CorrelationDecision fl → Type 0
    Chooses cs d =
        ((b : CorrelationCandidate) × IsFirstBest cs b
          × (le engine.threshold (score b) ≡ true)
          × (d ≡ record {
            decision = correlate;
            score = score b;
            matched_signals = signals_of fl engine alert b;
            matched_incident_id = some b.incident_id;
            correlation_key = b.correlation_key;
          }))
        ⊎ (All IsUnder cs
            × (d.decision ≡ new_incident)
            × (d.matched_incident_id ≡ none)
            × (d.correlation_key ≡ key_or engine.new_incident_correlation_key alert.fingerprint))

    -- With scores in a total order, the alert joins a candidate that reaches the threshold, the
    -- first of the highest score, with its score, signals, id and key; or every candidate is
    -- under the threshold, and the decision is a new incident with no match, under the configured
    -- key or the fingerprint.
    pub decide-best : (cs : List CorrelationCandidate) → Chooses cs (decide fl engine alert cs)
    unfolding decide search_candidates consider
    decide-best [] = inr (tt, refl, refl, refl)
    decide-best (c ∷ cs) =
        let (b, eq, best) = search_all c cs in
        elim (Bool-cases (le engine.threshold (score b))) [
          | inl enough ↦ inl (b, best, enough, rw (eq, enough))
          | inr short ↦ inr (
            above-All (score b) (c ∷ cs) (ground (arith, order.lt_eq (score b) engine.threshold))
                (best-All (c ∷ cs) b best),
            rw (eq, short),
            rw (eq, short),
            rw (eq, short),
          )
        ]
