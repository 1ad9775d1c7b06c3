-- ===== src/Rubric/Candidates.antt =====
-- The candidates of the rule engine are the seeds and the rules that match.
use mathlib.Core.List.{Memᴰ}
use mathlib.Core.List.Memᴰ
use mathlib.Core.List.Memᴰ.{head, tail}
use briefed.Base.{
  if-elim, ◌≡◌, inl, inr, refl, sym, ap, subst, ◌∙◌, List, [], ◌∷◌, ◌++◌, true, some, arith,
  Bool-cases,
}
use briefed.Base.Result.{ok, Result-cases}
use briefed.Mail.{EmailMessage}
use briefed.Rubric.Clauses.{Python, match_predicate}
use briefed.Rubric.Engine.{
  KnownWasteSender, RubricRule, RuleMatch, action_confidence, action_reasons, seed_match,
  rule_match, seed_matches, try_rule, rule_matches,
}

module _ (python : Python) (email : EmailMessage) where
  -- The candidates: the seeds that match, and the active rules that match.
  pub data IsCandidate (rules : List RubricRule) (seeds : List KnownWasteSender) (m : RuleMatch)
      : Type 0 where
    by_seed :
        (seed : KnownWasteSender)
        → Memᴰ seed seeds
        → match_predicate python email seed.match ≡ true
        → m ≡ seed_match seed
        → IsCandidate rules seeds m
    by_rule :
        (rule : RubricRule)
        → Memᴰ rule rules
        → rule.active ≡ true
        → match_predicate python email rule.match ≡ true
        → rule_match python rule ≡ ok m
        → IsCandidate rules seeds m

  abbrev IsSeeded : List KnownWasteSender → RuleMatch → Type 0
  IsSeeded seeds m =
      (seed : KnownWasteSender) × Memᴰ seed seeds
      × (match_predicate python email seed.match ≡ true)
      × (m ≡ seed_match seed)

  later_seed :
      (s : KnownWasteSender) (seeds : List KnownWasteSender) (m : RuleMatch)
      → IsSeeded seeds m
      → IsSeeded (s ∷ seeds) m
  later_seed s seeds m (seed, listed, matches, e) = (seed, tail listed, matches, e)

  pub seed_matches_sound :
      (seeds : List KnownWasteSender) (m : RuleMatch)
      → Memᴰ m (seed_matches python email seeds)
      → IsSeeded seeds m
  unfolding seed_matches
  seed_matches_sound [] m h = absurd (Memᴰ.not-nil h)
  seed_matches_sound (seed ∷ seeds) m h =
      if-elim (λ xs. Memᴰ m xs → IsSeeded (seed ∷ seeds) m)
        (match_predicate python email seed.match)
        (λ matches k. elim (Memᴰ.cases_cons k) [
          | inl e ↦ (seed, head refl, matches, e)
          | inr rest ↦ later_seed seed seeds m (seed_matches_sound seeds m rest)
        ])
        (λ _ k. later_seed seed seeds m (seed_matches_sound seeds m k)) h

  pub seed_matches_complete :
      (seeds : List KnownWasteSender) (seed : KnownWasteSender)
      → Memᴰ seed seeds
      → match_predicate python email seed.match ≡ true
      → Memᴰ (seed_match seed) (seed_matches python email seeds)
  unfolding seed_matches
  seed_matches_complete [] seed h matches = absurd (Memᴰ.not-nil h)
  seed_matches_complete (s ∷ seeds) seed h matches = elim (Memᴰ.cases_cons h) [
    | inl e ↦
        if-elim (λ xs. Memᴰ (seed_match seed) xs) (match_predicate python email s.match)
          (λ _. head (ap seed_match e))
          (λ fails.
            absurd (
              ground
                (arith, ap (λ (x : KnownWasteSender). match_predicate python email x.match) e)))
    | inr rest ↦
        if-elim (λ xs. Memᴰ (seed_match seed) xs) (match_predicate python email s.match)
          (λ _. tail (seed_matches_complete seeds seed rest matches))
          (λ _. seed_matches_complete seeds seed rest matches)
  ]

  try_rule_sound :
      (rule : RubricRule) (found : List RuleMatch) (m : RuleMatch)
      → try_rule python email rule ≡ ok found
      → Memᴰ m found
      → (rule.active ≡ true)
        × (match_predicate python email rule.match ≡ true)
        × (rule_match python rule ≡ ok m)
  unfolding try_rule
  try_rule_sound rule found m e h = elim (Bool-cases rule.active) [
    | inr idle ↦
        let nothing : found ≡ [] = ground arith in absurd (Memᴰ.not-nil (subst (Memᴰ m) nothing h))
    | inl active ↦ elim (Bool-cases (match_predicate python email rule.match)) [
      | inr fails ↦
          let nothing : found ≡ [] = ground arith in
          absurd (Memᴰ.not-nil (subst (Memᴰ m) nothing h))
      | inl matches ↦ elim (Result-cases (rule_match python rule)) [
        | inl (m', r) ↦
            let one : found ≡ m' ∷ [] = ground arith in
            elim (Memᴰ.cases_cons (subst (Memᴰ m) one h)) [
              | inl same ↦ (active, matches, r ∙ ap ok (sym same))
              | inr rest ↦ absurd (Memᴰ.not-nil rest)
            ]
        | inr (x, r) ↦ absurd (ground arith)
      ]
    ]
  ]

  try_rule_complete :
      (rule : RubricRule) (found : List RuleMatch)
      → try_rule python email rule ≡ ok found
      → rule.active ≡ true
      → match_predicate python email rule.match ≡ true
      → (m : RuleMatch) × (rule_match python rule ≡ ok m) × (found ≡ m ∷ [])
  unfolding try_rule
  try_rule_complete rule found e active matches = elim (Result-cases (rule_match python rule)) [
    | inl (m, r) ↦ (m, r, ground arith)
    | inr (x, r) ↦ absurd (ground arith)
  ]

  -- The rest of the loop ends well if the loop does, and its candidates come after the first rule's.
  rule_matches-cons :
      (rule : RubricRule) (rules : List RubricRule) (ms : List RuleMatch)
      → rule_matches python email (rule ∷ rules) ≡ ok ms
      → (found : List RuleMatch) × (more : List RuleMatch) × (try_rule python email rule ≡ ok found)
        × (rule_matches python email rules ≡ ok more)
        × (ms ≡ found ++ more)
  unfolding rule_matches
  rule_matches-cons rule rules ms e = elim (Result-cases (try_rule python email rule)) [
    | inr (x, r) ↦ absurd (ground arith)
    | inl (found, r) ↦ elim (Result-cases (rule_matches python email rules)) [
      | inr (x, q) ↦ absurd (ground arith)
      | inl (more, q) ↦ (found, more, r, q, ground arith)
    ]
  ]

  later_rule :
      (rule : RubricRule) (rules : List RubricRule) (seeds : List KnownWasteSender) (m : RuleMatch)
      → IsCandidate rules seeds m
      → IsCandidate (rule ∷ rules) seeds m
  later_rule rule rules seeds m (by_seed seed listed matches e) = by_seed seed listed matches e
  later_rule rule rules seeds m (by_rule r listed active matches made) =
      by_rule r (tail listed) active matches made

  pub rule_matches_sound :
      (rules : List RubricRule) (seeds : List KnownWasteSender) (ms : List RuleMatch)
      (m : RuleMatch)
      → rule_matches python email rules ≡ ok ms
      → Memᴰ m ms
      → IsCandidate rules seeds m
  unfolding rule_matches
  rule_matches_sound [] seeds ms m e h =
      let nothing : ms ≡ [] = ground arith in absurd (Memᴰ.not-nil (subst (Memᴰ m) nothing h))
  rule_matches_sound (rule ∷ rules) seeds ms m e h =
      let (found, more, r, q, split) = rule_matches-cons rule rules ms e in
      elim (Memᴰ.append_cases found (subst (Memᴰ m) split h)) [
        | inl here ↦
            let (active, matches, made) = try_rule_sound rule found m r here in
            by_rule rule (head refl) active matches made
        | inr there ↦ later_rule rule rules seeds m (rule_matches_sound rules seeds more m q there)
      ]

  pub rule_matches_complete :
      (rules : List RubricRule) (ms : List RuleMatch) (rule : RubricRule) (m : RuleMatch)
      → rule_matches python email rules ≡ ok ms
      → Memᴰ rule rules
      → rule.active ≡ true
      → match_predicate python email rule.match ≡ true
      → rule_match python rule ≡ ok m
      → Memᴰ m ms
  rule_matches_complete [] ms rule m e listed active matches made = absurd (Memᴰ.not-nil listed)
  rule_matches_complete (r ∷ rules) ms rule m e listed active matches made =
      let (found, more, tried, q, split) = rule_matches-cons r rules ms e in
      subst (Memᴰ m) (sym split) (elim (Memᴰ.cases_cons listed) [
        | inl here ↦
            let (m', made', one) =
              try_rule_complete rule found (ap (try_rule python email) here ∙ tried) active
                matches in
            Memᴰ.append_left more (subst (Memᴰ m) (sym one) (head (ground arith)))
        | inr there ↦
            Memᴰ.append_right found
              (rule_matches_complete rules more rule m q there active matches made)
      ])

  -- The engine made a candidate of every active rule that matches.
  pub rule_matches_made :
      (rules : List RubricRule) (ms : List RuleMatch) (rule : RubricRule)
      → rule_matches python email rules ≡ ok ms
      → Memᴰ rule rules
      → rule.active ≡ true
      → match_predicate python email rule.match ≡ true
      → (m : RuleMatch) × (rule_match python rule ≡ ok m)
  rule_matches_made [] ms rule e listed active matches = absurd (Memᴰ.not-nil listed)
  rule_matches_made (r ∷ rules) ms rule e listed active matches =
      let (found, more, tried, q, split) = rule_matches-cons r rules ms e in
      elim (Memᴰ.cases_cons listed) [
        | inl here ↦
            let (m, made, one) =
              try_rule_complete rule found (ap (try_rule python email) here ∙ tried) active
                matches in
            (m, made)
        | inr there ↦ rule_matches_made rules more rule q there active matches
      ]

  pub rule_match_of :
      (rule : RubricRule) (m : RuleMatch)
      → rule_match python rule ≡ ok m
      → (m.priority ≡ rule.priority) × (m.decision.rule_id ≡ some rule.id)
  unfolding rule_match
  rule_match_of rule m e = elim (Result-cases (action_confidence python rule.action)) [
    | inr (x, r) ↦ absurd (ground arith)
    | inl (c, r) ↦ elim (Result-cases (action_reasons python rule.action)) [
      | inr (x, q) ↦ absurd (ground arith)
      | inl (rs, q) ↦ ground arith
    ]
  ]
