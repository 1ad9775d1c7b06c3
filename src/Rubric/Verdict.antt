-- ===== src/Rubric/Verdict.antt =====
-- The verdict of the rule engine against the candidates that the rules and seeds are.
use mathlib.Core.List.{Memᴰ}
use mathlib.Core.List.Memᴰ
use briefed.Base.{
  ◌<◌, ◌≡◌, ◌≢◌, inl, inr, refl, sym, ap, subst, ◌∙◌, List, [], ◌∷◌, ◌++◌, true, Option, none, some,
  arith, Option-cases,
}
use briefed.Base.Result.{ok, err, Result-cases}
use briefed.Mail.{EmailMessage}
use briefed.Rubric.Clauses.{Python, match_predicate}
use briefed.Rubric.Engine.{
  KnownWasteSender, RubricRule, RuleDecision, RuleMatch, RuleEngine, EngineError, seed_match,
  seed_matches, rule_matches, winner, decide, evaluate,
}
use briefed.Rubric.Winner.{Ranks, IsAtMost-Ranks, winner-mem, winner-IsAtMost}
use briefed.Rubric.Candidates.{
  IsCandidate, by_seed, by_rule, seed_matches_sound, seed_matches_complete, rule_matches_sound,
  rule_matches_complete, rule_matches_made, rule_match_of,
}

module _ (python : Python) (engine : RuleEngine) (email : EmailMessage) where
  abbrev pub Candidate : RuleMatch → Type 0
  Candidate = IsCandidate python email engine.user_rules engine.seed_waste

  -- The decision of a candidate that no candidate ranks above, or none where there is no candidate.
  abbrev pub IsVerdict : Option RuleDecision → Type 0
  IsVerdict none = (m : RuleMatch) → ¬ Candidate m
  IsVerdict (some d) =
      (m : RuleMatch) × Candidate m × (d ≡ m.decision) × ((c : RuleMatch) → Candidate c → Ranks c m)

  decide-IsVerdict :
      (ms : List RuleMatch)
      → ((m : RuleMatch) → Memᴰ m ms → Candidate m)
      → ((m : RuleMatch) → Candidate m → Memᴰ m ms)
      → IsVerdict (decide ms)
  unfolding decide
  decide-IsVerdict [] sound complete = λ m c. Memᴰ.not-nil (complete m c)
  decide-IsVerdict (m ∷ ms) sound complete =
      let best : RuleMatch = winner m ms in
      (
        best,
        sound best (winner-mem m ms),
        refl,
        λ c k. IsAtMost-Ranks c best (winner-IsAtMost m ms c (complete c k)),
      )

  candidates_complete :
      (rules : List RuleMatch) (m : RuleMatch)
      → rule_matches python email engine.user_rules ≡ ok rules
      → Candidate m
      → Memᴰ m (seed_matches python email engine.seed_waste ++ rules)
  candidates_complete rules m e (by_seed seed listed matches made) =
      Memᴰ.append_left rules
        (Memᴰ.cast made (seed_matches_complete python email engine.seed_waste seed listed matches))
  candidates_complete rules m e (by_rule rule listed active matches made) =
      Memᴰ.append_right (seed_matches python email engine.seed_waste) (
        rule_matches_complete python email engine.user_rules rules rule m e listed active matches
          made)

  candidates_sound :
      (rules : List RuleMatch) (m : RuleMatch)
      → rule_matches python email engine.user_rules ≡ ok rules
      → Memᴰ m (seed_matches python email engine.seed_waste ++ rules)
      → Candidate m
  candidates_sound rules m e h =
      elim (Memᴰ.append_cases (seed_matches python email engine.seed_waste) h) [
        | inl a ↦
            let (seed, listed, matches, made) =
              seed_matches_sound python email engine.seed_waste m a in
            by_seed seed listed matches made
        | inr b ↦ rule_matches_sound python email engine.user_rules engine.seed_waste rules m e b
      ]

  -- When the engine decides without an exception, it decides for a seed or an active rule that
  -- matches the email, and no other that matches has a higher priority, or the same priority and a
  -- higher label; and it leaves the email to the model only if no seed and no active rule matches.
  pub evaluate-IsVerdict :
      (verdict : Option RuleDecision)
      → evaluate python engine email ≡ ok verdict
      → IsVerdict verdict
  unfolding evaluate
  evaluate-IsVerdict verdict e = elim (Result-cases (rule_matches python email engine.user_rules)) [
    | inr (x, r) ↦ absurd (ground arith)
    | inl (rules, r) ↦
        let ms : List RuleMatch = seed_matches python email engine.seed_waste ++ rules in
        let same : decide ms ≡ verdict = ground arith in
        subst IsVerdict same (
          decide-IsVerdict ms (λ m h. candidates_sound rules m r h)
            (λ m c. candidates_complete rules m r c))
  ]

  failed :
      (verdict : Option RuleDecision) (x : EngineError)
      → evaluate python engine email ≡ ok verdict
      → rule_matches python email engine.user_rules ≢ err x
  unfolding evaluate
  failed verdict x e r = ground arith

  -- A candidate of a high priority is a rule's.
  ruled : (m : RuleMatch) → Candidate m → 10000 < m.priority → m.decision.rule_id ≢ none
  unfolding seed_match
  ruled m (by_seed seed listed matches made) high none' =
      ground (arith, ap (λ (x : RuleMatch). x.priority) made)
  ruled m (by_rule rule listed active matches made) high none' =
      ground (arith, (rule_match_of python email rule m made).1)

  seeded :
      (d : RuleDecision) (m : RuleMatch) (source : KnownWasteSender)
      → Candidate m
      → d ≡ m.decision
      → Ranks (seed_match source) m
      → ((rule : RubricRule)
          → Memᴰ rule engine.user_rules
          → rule.active ≡ true
          → match_predicate python email rule.match ≡ true
          → rule.priority < 10000)
      → (d.label ≡ "ignore") × (d.rule_id ≡ none)
  unfolding seed_match
  seeded d m source (by_seed seed listed matches made) same ranked low = (
    ap (λ (x : RuleDecision). x.label) same ∙ ap (λ (x : RuleMatch). x.decision.label) made,
    ap (λ (x : RuleDecision). x.rule_id) same ∙ ap (λ (x : RuleMatch). x.decision.rule_id) made,
  )
  seeded d m source (by_rule rule listed active matches made) same ranked low = absurd (
      ground
        (arith, ranked, low rule listed active matches, (rule_match_of python email rule m made).0))

  -- When the engine decides without an exception and a seed matches, the label is ignore and no
  -- rule is named, provided that every active rule that matches has a priority below 10000.
  pub evaluate-seed :
      (verdict : Option RuleDecision) (seed : KnownWasteSender)
      → evaluate python engine email ≡ ok verdict
      → Memᴰ seed engine.seed_waste
      → match_predicate python email seed.match ≡ true
      → ((rule : RubricRule)
          → Memᴰ rule engine.user_rules
          → rule.active ≡ true
          → match_predicate python email rule.match ≡ true
          → rule.priority < 10000)
      → (d : RuleDecision) × (verdict ≡ some d) × (d.label ≡ "ignore") × (d.rule_id ≡ none)
  evaluate-seed verdict seed e listed matches low = elim (Option-cases verdict) [
    | inl undecided ↦ absurd (
        subst IsVerdict undecided (evaluate-IsVerdict verdict e) (seed_match seed)
          (by_seed seed listed matches refl))
    | inr (d, decided) ↦
        let (m, c, same, top) = subst IsVerdict decided (evaluate-IsVerdict verdict e) in
        let ranked : Ranks (seed_match seed) m =
          top (seed_match seed) (by_seed seed listed matches refl) in
        let (label, id) = seeded d m seed c same ranked low in (d, decided, label, id)
  ]

  -- When the engine decides without an exception and an active rule of a priority above 10000
  -- matches, the decision names a rule, whatever seeds match.
  pub evaluate_override :
      (verdict : Option RuleDecision) (rule : RubricRule)
      → evaluate python engine email ≡ ok verdict
      → Memᴰ rule engine.user_rules
      → rule.active ≡ true
      → match_predicate python email rule.match ≡ true
      → 10000 < rule.priority
      → (d : RuleDecision) × (verdict ≡ some d) × (d.rule_id ≢ none)
  evaluate_override verdict rule e listed active matches high =
      elim (Result-cases (rule_matches python email engine.user_rules)) [
        | inr (x, r) ↦ absurd (failed verdict x e r)
        | inl (rules, r) ↦
            let (k, made) =
              rule_matches_made python email engine.user_rules rules rule r listed active matches in
            let mine : Candidate k = by_rule rule listed active matches made in
            elim (Option-cases verdict) [
              | inl undecided ↦
                  absurd (subst IsVerdict undecided (evaluate-IsVerdict verdict e) k mine)
              | inr (d, decided) ↦
                  let (m, c, same, top) = subst IsVerdict decided (evaluate-IsVerdict verdict e) in
                  let (priority, id) = rule_match_of python email rule k made in
                  (
                    d,
                    decided,
                    λ seedless.
                        ruled m c (ground (arith, top k mine))
                          (sym (ap (λ (x : RuleDecision). x.rule_id) same) ∙ seedless),
                  )
            ]
      ]
