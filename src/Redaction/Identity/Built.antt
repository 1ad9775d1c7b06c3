-- ===== src/Redaction/Identity/Built.antt =====
-- When build_default_chain of backend/app/llm/redaction can build a chain.
use briefed.Base.{
  ℕ, String, ◌≡◌, refl, List, [], ◌∷◌, ◌++◌, Bool, true, false, not, ◌||◌, ◌&&◌, any, arith, str_eq,
  inl, inr,
}
use briefed.Base.Dict.{Dict}
use briefed.Base.Result.{Result, ok, err, Result-cases}
use briefed.Schedule.Slot.{codes, strip}
use briefed.Rubric.Texts.{is_empty}
use briefed.Redaction.Regex.{Pattern}
use briefed.Redaction.Identity.{
  BuildError, ChainOptions, is_blank, given, optional, add_identity, identities_of, compile_all,
  build_default_chain,
}

abbrev pub is_ok {ℓ} : {A : Type ℓ} → Result BuildError A → Bool
is_ok (ok a) = true
is_ok (err e) = false

-- A text of spaces, of which there is one at least.
abbrev pub is_spaces : String → Bool
is_spaces c = not (str_eq c "") && is_empty (strip (codes c))

abbrev pub texts_of : ChainOptions → List String
texts_of o =
    (optional o.user_email ++ o.email_aliases)
    ++ (optional o.user_name ++ o.aliases)
    ++ optional o.user_id

any-append : (p : String → Bool) (xs ys : List String) → any p (xs ++ ys) ≡ (any p xs || any p ys)
any-append p [] ys = refl
any-append p (x ∷ xs) ys = ground (arith, any-append p xs ys)

any-given : (cs : List String) → any is_blank (given cs) ≡ any is_spaces cs
unfolding given is_blank
any-given [] = refl
any-given (c ∷ cs) = ground (arith, any-given cs)

module _ (compile : List String → Pattern) where
  is_ok-add_identity :
      (kind : String) (cs : List String) (identities : Dict (List String))
      → is_ok (compile_all compile (add_identity kind cs identities))
        ≡ (not (any is_blank cs) && is_ok (compile_all compile identities))
  unfolding add_identity compile_all
  is_ok-add_identity kind [] identities = refl
  is_ok-add_identity kind (c ∷ cs) identities =
      elim (Result-cases (compile_all compile identities)) [
        | inl (compiled, e) ↦ ground arith
        | inr (e, failed) ↦ ground arith
      ]

  not-any : (a b c : Bool) → (not a && (not b && (not c && true))) ≡ not ((a || b) || c)
  not-any a b c = ground arith

  is_ok-added :
      (emails names ids : List String)
      → is_ok (
          compile_all compile (
            add_identity "USER_EMAIL"
              (given emails)
              (add_identity "USER_NAME" (given names) (add_identity "USER_ID" (given ids) []))))
        ≡ not (any is_spaces (emails ++ names ++ ids))
  unfolding compile_all
  is_ok-added emails names ids =
      let last = add_identity "USER_ID" (given ids) [] in
      rw
        (
          is_ok-add_identity "USER_EMAIL" (given emails)
              (add_identity "USER_NAME" (given names) last),
          is_ok-add_identity "USER_NAME" (given names) last,
          is_ok-add_identity "USER_ID" (given ids) [],
          any-given emails,
          any-given names,
          any-given ids,
          any-append is_spaces (emails ++ names) ids,
          any-append is_spaces emails names,
        )
        (not-any (any is_spaces emails) (any is_spaces names) (any is_spaces ids))

  is_ok-identities_of :
      (o : ChainOptions)
      → is_ok (compile_all compile (identities_of o)) ≡ not (any is_spaces (texts_of o))
  unfolding identities_of
  is_ok-identities_of o =
      is_ok-added (optional o.user_email ++ o.email_aliases) (optional o.user_name ++ o.aliases)
        (optional o.user_id)

  -- A chain is built exactly where Presidio is asked for neither by the user nor by the configuration,
  -- and no address, name, alias or id of the user is a text of nothing but spaces.
  pub is_ok-build_default_chain :
      (int_text : ℕ → String) (re : String → Pattern) (features_presidio : Bool) (o : ChainOptions)
      → is_ok (build_default_chain compile int_text re features_presidio o)
        ≡ (not (o.presidio_enabled || features_presidio) && not (any is_spaces (texts_of o)))
  unfolding build_default_chain
  is_ok-build_default_chain int_text re features_presidio o =
      elim (Result-cases (compile_all compile (identities_of o))) [
        | inl (compiled, e) ↦ ground (arith, is_ok-identities_of o)
        | inr (e, failed) ↦ ground (arith, is_ok-identities_of o)
      ]
