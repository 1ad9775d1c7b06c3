-- ===== src/Envelope/Tests.antt =====
-- A KMS that keeps the context beside the key, and a cipher that adds a tag.
use native.Mathlib.Decide.{ℕ_discrete}
use briefed.Base.{
  Bool-cases, inl, inr, ap, sym, subst, ◌∙◌, ◌≡◌, ◌⊎◌, refl, String, [], ◌∷◌, Option, none, some,
  length, arith, str_eq, eq_iff,
}
use briefed.Base.Result.{ok, err}
use briefed.Envelope.{
  Bytes, EncryptionContext, EnvelopeCipher, KmsClient, AesGcm, encrypt, decrypt, pack_header,
  excerpt_context, encrypt_excerpt, decrypt_excerpt, too_short,
}
use briefed.Envelope.Excerpts.{
  ok-inj, IsKms, IsAesGcm, decrypt_excerpt-encrypt_excerpt, IsStoredAs, decrypt_excerpt-bound,
}

-- A key of 32 bytes, and a nonce of 12.
abbrev key : Bytes
key =
    1 ∷ 2 ∷ 3 ∷ 4 ∷ 5 ∷ 6 ∷ 7 ∷ 8 ∷ 1 ∷ 2 ∷ 3 ∷ 4 ∷ 5 ∷ 6 ∷ 7 ∷ 8 ∷ 1 ∷ 2 ∷ 3 ∷ 4 ∷ 5 ∷ 6 ∷ 7 ∷ 8
    ∷ 1 ∷ 2 ∷ 3 ∷ 4 ∷ 5 ∷ 6 ∷ 7 ∷ 8 ∷ []

abbrev nonce : Bytes
nonce = 9 ∷ 9 ∷ 9 ∷ 9 ∷ 9 ∷ 9 ∷ 9 ∷ 9 ∷ 9 ∷ 9 ∷ 9 ∷ 9 ∷ []

abbrev context : EncryptionContext
context =
    ("table", "email_content_blobs")
    ∷ ("row_id", "m1")
    ∷ ("purpose", "email_body_excerpt")
    ∷ ("user_id", "ana")
    ∷ []

context_of : excerpt_context "m1" "ana" ≡ context
unfolding excerpt_context
context_of = refl

string-discrete : Discrete String
string-discrete a b = elim (Bool-cases (str_eq a b)) [
  | inl same ↦ yes (ground (arith, eq_iff a b))
  | inr other ↦ no (λ e. ground (arith, eq_iff a b))
]

bytes-discrete : Discrete Bytes
bytes-discrete = hlevel ℕ_discrete

context-discrete : Discrete EncryptionContext
context-discrete = hlevel string-discrete

abbrev wrap : {p : Bytes} {c : EncryptionContext} → Dec (p ≡ key) → Dec (c ≡ context) → Option Bytes
wrap (yes a) (yes b) = some (7 ∷ [])
wrap (yes a) (no n) = none
wrap (no n) d = none

abbrev unwrap : {c : EncryptionContext} → Dec (c ≡ context) → Option Bytes
unwrap (yes a) = some key
unwrap (no n) = none

-- It wraps one key, under one context.
abbrev kms : KmsClient
kms = record {
  encrypt_key = λ k p c. wrap {p = p} {c = c} (bytes-discrete p key) (context-discrete c context);
  decrypt_key = λ k w c. unwrap {c = c} (context-discrete c context);
}

wrap_inv :
    {p : Bytes} {c : EncryptionContext} (d : Dec (p ≡ key)) (e : Dec (c ≡ context)) (w : Bytes)
    → wrap d e ≡ some w
    → (p ≡ key) × (c ≡ context) × (w ≡ 7 ∷ [])
wrap_inv (yes a) (yes b) w h = (a, b, ground arith)
wrap_inv (yes a) (no n) w h = absurd (ground arith)
wrap_inv (no n) d w h = absurd (ground arith)

unwrap_inv :
    {c : EncryptionContext} (e : Dec (c ≡ context)) (w : Bytes) → unwrap e ≡ some w → c ≡ context
unwrap_inv (yes a) w h = a
unwrap_inv (no n) w h = absurd (ground arith)

unwrap_known : {c : EncryptionContext} (e : Dec (c ≡ context)) → c ≡ context → unwrap e ≡ some key
unwrap_known (yes a) h = refl
unwrap_known (no n) h = absurd (n h)

wrap_known :
    {p : Bytes} {c : EncryptionContext} (d : Dec (p ≡ key)) (e : Dec (c ≡ context))
    → p ≡ key
    → c ≡ context
    → wrap d e ≡ some (7 ∷ [])
wrap_known (yes a) (yes b) h k = refl
wrap_known (yes a) (no n) h k = absurd (n k)
wrap_known (no n) d h k = absurd (n h)

kms-IsKms : IsKms kms
kms-IsKms = record {
  short = λ k p c w e.
      let (a, b, h) = wrap_inv (bytes-discrete p key) (context-discrete c context) w e in
      omega (arith, ap length h);
  unwraps = λ k p c w e.
      let (a, b, h) = wrap_inv (bytes-discrete p key) (context-discrete c context) w e in
      unwrap_known (context-discrete c context) b ∙ ap some (sym a);
  binds = λ k p c w other q e d.
      let (a, b, h) = wrap_inv (bytes-discrete p key) (context-discrete c context) w e in
      b ∙ sym (unwrap_inv (context-discrete other context) q d);
}

-- A tag before the plain text, which is kept.
abbrev aes_gcm : AesGcm
aes_gcm = record { seal = λ k n p. 0 ∷ p; unseal = λ k n c. elim c [ [] ↦ none | t ∷ p ↦ some p ] }

aes_gcm-IsAesGcm : IsAesGcm aes_gcm
aes_gcm-IsAesGcm = record { opens = λ k n p. refl; tagged = λ k n p e. absurd (ground arith) }

abbrev cipher : EnvelopeCipher
cipher = record { key_id = "alias"; client = kms; aes_gcm = aes_gcm }

wrapped : kms.encrypt_key "alias" key (excerpt_context "m1" "ana") ≡ some (7 ∷ [])
wrapped =
    wrap_known (bytes-discrete key key) (context-discrete (excerpt_context "m1" "ana") context) refl
      context_of

decrypt_excerpt-encrypt_excerpt_example :
    (stored : Option Bytes) × (encrypt_excerpt (some cipher) key nonce (72 ∷ 105 ∷ []) "m1" "ana"
      ≡ ok stored)
    × IsStoredAs (72 ∷ 105 ∷ []) stored
    × (decrypt_excerpt (some cipher) stored "m1" "ana" ≡ ok (72 ∷ 105 ∷ []))
decrypt_excerpt-encrypt_excerpt_example =
    decrypt_excerpt-encrypt_excerpt cipher kms-IsKms aes_gcm-IsAesGcm key nonce (72 ∷ 105 ∷ [])
      (7 ∷ []) "m1" "ana" refl refl wrapped

abbrev blob : Bytes
blob = 1 ∷ 0 ∷ 1 ∷ 0 ∷ 12 ∷ 7 ∷ 9 ∷ 9 ∷ 9 ∷ 9 ∷ 9 ∷ 9 ∷ 9 ∷ 9 ∷ 9 ∷ 9 ∷ 9 ∷ 9 ∷ 0 ∷ 72 ∷ 105 ∷ []

stored : encrypt_excerpt (some cipher) key nonce (72 ∷ 105 ∷ []) "m1" "ana" ≡ ok (some blob)
unfolding encrypt_excerpt encrypt pack_header
stored = rw wrapped refl

opened : decrypt_excerpt (some cipher) (some blob) "m1" "ana" ≡ ok (72 ∷ 105 ∷ [])
opened =
    let (s, e, kind, read) =
      decrypt_excerpt-encrypt_excerpt cipher kms-IsKms aes_gcm-IsAesGcm key nonce (72 ∷ 105 ∷ [])
        (7 ∷ []) "m1" "ana" refl refl wrapped in
    subst (λ o. decrypt_excerpt (some cipher) o "m1" "ana" ≡ ok (72 ∷ 105 ∷ []))
      (ok-inj (sym e ∙ stored)) read

decrypt_excerpt-bound_example :
    (◌≡◌ {A = String} "ana" "ana") × ((◌≡◌ {A = String} "m1" "m1") ⊎ (◌≡◌ {A = String} "m1" "None"))
decrypt_excerpt-bound_example =
    decrypt_excerpt-bound cipher kms-IsKms aes_gcm-IsAesGcm key nonce (72 ∷ 105 ∷ []) blob
      (72 ∷ 105 ∷ []) "m1" "ana" "m1" "ana" refl (λ e. absurd (ground arith)) stored opened

headless : decrypt cipher (1 ∷ 0 ∷ 1 ∷ 0 ∷ []) context ≡ err too_short
unfolding decrypt
headless = refl
