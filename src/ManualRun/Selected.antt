-- ===== src/ManualRun/Selected.antt =====
-- What the selection of the accounts returns or raises.
use briefed.Base.{
  if-elim, ◌≡◌, refl, sym, ◌∙◌, subst, String, List, [], ◌∷◌, Bool, true, ◌&&◌, Option, none, some,
  filter, length, ◌==◌, arith, All, Bool-cases, inl, inr,
}
use briefed.Base.Result.{Result, ok, err}
use briefed.Tables.{ConnectedAccount}
use briefed.Runs.Progress.{contains}
use briefed.ManualRun.{
  RunError, account_not_found, count_distinct, is_selectable, selected_accounts,
}

-- What a request asks for: every account, or those that it names.
abbrev pub is_wanted : Option (List String) → ConnectedAccount → Bool
is_wanted none a = true
is_wanted (some []) a = true
is_wanted (some (id ∷ ids)) a = contains (id ∷ ids) a.id

abbrev pub asked_for : String → Option (List String) → List ConnectedAccount → List ConnectedAccount
asked_for user_id ids accounts = filter (λ a. is_selectable user_id a && is_wanted ids a) accounts

-- As many accounts as names, where there are names.
abbrev pub HasAll : Option (List String) → List ConnectedAccount → Type 0
HasAll none rows = Unit
HasAll (some []) rows = Unit
HasAll (some (id ∷ ids)) rows = length rows ≡ count_distinct (id ∷ ids)

-- The accounts that a request chooses: those of the user that are active, scanned and asked for.
pub record Chooses (user_id : String) (ids : Option (List String))
    (accounts rows : List ConnectedAccount) : Type 0 where
  pub chosen : rows ≡ asked_for user_id ids accounts
  pub selectable : All (λ a. is_selectable user_id a ≡ true) rows
  pub has_all : HasAll ids rows

All-filter {ℓ} :
    {A : Type ℓ} (p q : A → Bool)
    → ((x : A) → p x ≡ true → q x ≡ true)
    → (xs : List A) → All (λ x. q x ≡ true) (filter p xs)
All-filter p q sub [] = tt
All-filter p q sub (x ∷ xs) =
    let rest = All-filter p q sub xs in
    if-elim (All (λ x. q x ≡ true)) (p x) (λ h. (sub x h, rest)) (λ _. rest)

and-left : (a b : Bool) → (a && b) ≡ true → a ≡ true
and-left a b h = ground arith

ok-inj :
    (a b : List ConnectedAccount)
    → ◌≡◌ {A = Result RunError (List ConnectedAccount)} (ok a) (ok b)
    → a ≡ b
ok-inj a b e = ground arith

filter-and_true :
    (user_id : String) (accounts : List ConnectedAccount)
    → filter (is_selectable user_id) accounts
      ≡ filter (λ a. is_selectable user_id a && true) accounts
filter-and_true user_id [] = refl
filter-and_true user_id (a ∷ accounts) = ground (arith, filter-and_true user_id accounts)

Chooses-asked_for :
    (user_id : String) (ids : Option (List String)) (accounts rows : List ConnectedAccount)
    → asked_for user_id ids accounts ≡ rows
    → HasAll ids rows
    → Chooses user_id ids accounts rows
Chooses-asked_for user_id ids accounts rows e has_all = record {
  chosen = sym e;
  selectable = subst (All (λ a. is_selectable user_id a ≡ true)) e (
      All-filter (λ a. is_selectable user_id a && is_wanted ids a) (is_selectable user_id)
        (λ a h. and-left _ _ h) accounts);
  has_all = has_all;
}

pub selected_accounts-Chooses :
    (user_id : String) (ids : Option (List String)) (accounts rows : List ConnectedAccount)
    → selected_accounts user_id ids accounts ≡ ok rows
    → Chooses user_id ids accounts rows
unfolding selected_accounts
selected_accounts-Chooses user_id none accounts rows h =
    Chooses-asked_for user_id none accounts rows
      (sym (filter-and_true user_id accounts) ∙ ok-inj _ rows h) tt
selected_accounts-Chooses user_id (some []) accounts rows h =
    Chooses-asked_for user_id (some []) accounts rows
      (sym (filter-and_true user_id accounts) ∙ ok-inj _ rows h) tt
selected_accounts-Chooses user_id (some (id ∷ ids)) accounts rows h =
    let chosen = asked_for user_id (some (id ∷ ids)) accounts in
    elim (Bool-cases (length chosen == count_distinct (id ∷ ids))) [
      | inl all ↦
          let same : chosen ≡ rows = (ground (arith, all, h)) in
          Chooses-asked_for user_id (some (id ∷ ids)) accounts rows same
            (subst (λ xs. length xs ≡ count_distinct (id ∷ ids)) same (ground (arith, all)))
      | inr missing ↦ absurd (ground (arith, missing, h))
    ]

err-inj :
    (a b : RunError) → ◌≡◌ {A = Result RunError (List ConnectedAccount)} (err a) (err b) → a ≡ b
err-inj a b e = ground arith

-- Not as many accounts as names.
abbrev pub LacksOne : String → Option (List String) → List ConnectedAccount → Type 0
LacksOne user_id ids accounts = ¬ HasAll ids (asked_for user_id ids accounts)

pub selected_accounts-err :
    (user_id : String) (ids : Option (List String)) (accounts : List ConnectedAccount)
    (x : RunError)
    → selected_accounts user_id ids accounts ≡ err x
    → (account_not_found ≡ x) × LacksOne user_id ids accounts
unfolding selected_accounts
selected_accounts-err user_id none accounts x h = cc
selected_accounts-err user_id (some []) accounts x h = cc
selected_accounts-err user_id (some (id ∷ ids)) accounts x h =
    let chosen = asked_for user_id (some (id ∷ ids)) accounts in
    elim (Bool-cases (length chosen == count_distinct (id ∷ ids))) [
      | inl all ↦ absurd (ground (arith, all, h))
      | inr missing ↦ (
        err-inj account_not_found x (ground (arith, missing, h)),
        λ same. ground (arith, missing, same),
      )
    ]
