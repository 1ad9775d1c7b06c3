-- ===== src/Unsubscribe/Executor/Requests.antt =====
-- How a call of `execute_unsubscribe` of backend/app/services/unsubscribe/executor.py ends, and what it
-- sends.
use briefed.Base.{
  ℕ, ◌+◌, ◌≤◌, ◌<◌, ◌≡◌, ◌↔◌, ◌⊎◌, inl, inr, refl, sym, subst, ◌∷◌, true, false, Option, none, some,
  arith, Bool-cases, Option-cases, leb, ltb, ◌&&◌,
}
use briefed.Base.Result.{Result, ok, err, Result-cases}
use briefed.Rubric.Texts.{Text}
use briefed.Unsubscribe.Header.{UnsubscribeAction, first_https, preferred_url}
use briefed.Unsubscribe.Executor.{
  Answer, transport_error, invalid_url, response, Network, World, ExecuteStatus, unsubscribed,
  manual_required, ExecuteOutcome, Uncaught, UnsafeUrl, validate_unsubscribe_url, drain_bounded,
  outcome_of_status, outcome_of_answer, blocked, one_click_url, attempt_one_click,
  execute_unsubscribe, request_error, manual_outcome,
}
use briefed.Unsubscribe.Executor.Guarded.{
  IsContactable, validate_unsubscribe_url-IsContactable, IsContactable-validate_unsubscribe_url,
}

abbrev pub Succeeds : Result Uncaught ExecuteOutcome → Type 0
Succeeds (ok o) = o.status ≡ unsubscribed
Succeeds (err e) = ⊥

-- The outcome where the user is left to act, or there is nothing to act on.
abbrev pub ByHand : Option Text → Result Uncaught ExecuteOutcome → Type 0
ByHand none (ok o) = o.status ≡ ExecuteStatus.failed
ByHand (some url) (ok o) = (o.status ≡ manual_required) × (o.manual_url ≡ some url)
ByHand preferred (err e) = ⊥

-- A status of success, and a body that can be read as far as it is read.
abbrev pub Accepts : Answer → Type 0
Accepts transport_error = ⊥
Accepts invalid_url = ⊥
Accepts (response code body) =
    (200 ≤ code) × (code < 300) × ((read : ℕ) × (drain_bounded 0 body ≡ some read))

module _ (net : Network) (action : UnsubscribeAction) (w : World) where
  -- How a call ends.
  pub data Executed (r : Result Uncaught ExecuteOutcome) (after : World) : Type 0 where
    by_hand :
        ((action.one_click ≡ false) ⊎ (first_https action.http_urls ≡ none))
        → ByHand (preferred_url action) r
        → after ≡ w
        → Executed r after
    refused :
        (url : Text)
        → action.one_click ≡ true
        → first_https action.http_urls ≡ some url
        → ¬ IsContactable net w.step url
        → ¬ Succeeds r
        → after.requests ≡ w.requests
        → Executed r after
    posted :
        (url : Text)
        → action.one_click ≡ true
        → first_https action.http_urls ≡ some url
        → IsContactable net w.step url
        → after.requests ≡ url ∷ w.requests
        → (Succeeds r ↔ Accepts (net.post (w.step + 1) url))
        → Executed r after

outcome_of_status-unsubscribed :
    (code : ℕ) → ((outcome_of_status code).status ≡ unsubscribed) ↔ ((200 ≤ code) × (code < 300))
unfolding outcome_of_status
outcome_of_status-unsubscribed code = elim (Bool-cases (leb 200 code && ltb code 300)) [
  | inl success ↦ (λ h. (ground arith, ground arith), λ h. ground arith)
  | inr other ↦ (λ h. absurd (ground arith), λ h. ground arith)
]

reply-Succeeds :
    (code : ℕ) (read : Option ℕ)
    → Succeeds (elim read [ none ↦ ok request_error | some n ↦ ok (outcome_of_status code) ])
      ↔ ((200 ≤ code) × (code < 300) × ((n : ℕ) × (read ≡ some n)))
reply-Succeeds code none = (λ h. absurd (ground arith), λ h. absurd (ground (arith, h.2.1)))
reply-Succeeds code (some n) =
    let success = outcome_of_status-unsubscribed code in
    (λ h. ((success.0 h).0, (success.0 h).1, (n, refl)), λ h. success.1 (h.0, h.1))

Succeeds-iff-Accepts : (a : Answer) → Succeeds (outcome_of_answer a) ↔ Accepts a
unfolding outcome_of_answer
Succeeds-iff-Accepts transport_error = (λ h. absurd (ground arith), λ h. absurd h)
Succeeds-iff-Accepts invalid_url = (λ h. h, λ h. h)
Succeeds-iff-Accepts (response code body) = reply-Succeeds code (drain_bounded 0 body)

not-Succeeds-blocked : (e : UnsafeUrl) → ¬ Succeeds (blocked e)
unfolding blocked
not-Succeeds-blocked UnsafeUrl.value_error h = h
not-Succeeds-blocked e h = ground arith

ByHand-manual_outcome : (preferred : Option Text) → ByHand preferred (ok (manual_outcome preferred))
unfolding manual_outcome
ByHand-manual_outcome none = refl
ByHand-manual_outcome (some url) = (refl, refl)

module _ (net : Network) (action : UnsubscribeAction) (w : World) where
  abbrev Ends : Result Uncaught ExecuteOutcome × World → Type 0
  Ends (r, after) = Executed net action w r after

  attempt_one_click_unsafe :
      (url : Text) (e : UnsafeUrl)
      → validate_unsubscribe_url net w.step url ≡ err e
      → attempt_one_click net url w ≡ (blocked e, record w { step = w.step + 1 })
  unfolding attempt_one_click
  attempt_one_click_unsafe url e h = ground arith

  attempt_one_click_safe :
      (url : Text)
      → validate_unsubscribe_url net w.step url ≡ ok tt
      → attempt_one_click net url w ≡ (
        outcome_of_answer (net.post (w.step + 1) url),
        record { step = w.step + 2; requests = url ∷ w.requests },
      )
  unfolding attempt_one_click
  attempt_one_click_safe url h = ground arith

  attempt_one_click-Ends :
      (url : Text)
      → action.one_click ≡ true
      → first_https action.http_urls ≡ some url
      → Ends (attempt_one_click net url w)
  attempt_one_click-Ends url wanted found =
      elim (Result-cases (validate_unsubscribe_url net w.step url)) [
        | inl (_, safe) ↦ subst Ends (sym (attempt_one_click_safe url safe)) (
            posted url wanted found (validate_unsubscribe_url-IsContactable net w.step url safe)
              refl (Succeeds-iff-Accepts (net.post (w.step + 1) url)))
        | inr (e, unsafe) ↦ subst Ends (sym (attempt_one_click_unsafe url e unsafe)) (
            refused url wanted found
              (λ c.
                absurd (ground (arith, IsContactable-validate_unsubscribe_url net w.step url c)))
              (not-Succeeds-blocked e) refl)
      ]

  execute_unsubscribe_automatic :
      (url : Text)
      → one_click_url action ≡ some url
      → execute_unsubscribe net action w ≡ attempt_one_click net url w
  unfolding execute_unsubscribe
  execute_unsubscribe_automatic url h = ground arith

  one_click_url-some :
      (url : Text)
      → one_click_url action ≡ some url
      → (action.one_click ≡ true) × (first_https action.http_urls ≡ some url)
  unfolding one_click_url
  one_click_url-some url h = ground arith

  one_click_url-none :
      one_click_url action ≡ none
      → (action.one_click ≡ false) ⊎ (first_https action.http_urls ≡ none)
  unfolding one_click_url
  one_click_url-none h = elim (Bool-cases action.one_click) [
    | inl wanted ↦ inr (ground arith)
    | inr unwanted ↦ inl unwanted
  ]

  execute_unsubscribe_by_hand :
      one_click_url action ≡ none
      → execute_unsubscribe net action w ≡ (ok (manual_outcome (preferred_url action)), w)
  unfolding execute_unsubscribe
  execute_unsubscribe_by_hand nothing = ground arith

  -- A call sends at most one request, and only where the header offers one-click and an HTTPS URL:
  -- then to the first of them, provided that every address of its host was public when it was looked
  -- up, and with no request otherwise. The call says `unsubscribed` exactly where such a request is
  -- answered by a status of success and its body can be read. Without one-click or an HTTPS URL nothing
  -- is looked up or sent, and the user gets the preferred link, or a failure where there is none.
  pub execute_unsubscribe-Executed :
      Executed net action w
        (execute_unsubscribe net action w).0
        (execute_unsubscribe net action w).1
  execute_unsubscribe-Executed = elim (Option-cases (one_click_url action)) [
    | inr (url, e) ↦
        let (wanted, found) = one_click_url-some url e in
        subst Ends (sym (execute_unsubscribe_automatic url e))
          (attempt_one_click-Ends url wanted found)
    | inl nothing ↦
        subst Ends (sym (execute_unsubscribe_by_hand nothing))
          (by_hand (one_click_url-none nothing) (ByHand-manual_outcome (preferred_url action)) refl)
  ]
