-- ===== src/Envelope/Excerpts.antt =====
-- Excerpts at rest: they come back to their row, and to no other.
use briefed.Base.{
  ◌≤◌, ◌≡◌, ◌≢◌, ◌⊎◌, inl, inr, refl, sym, ap, ◌∙◌, String, [], ◌∷◌, Option, none, some,
  Option-cases, length, arith,
}
use briefed.Base.Dict.{lookup, get_or}
use briefed.Base.Result.{Result, ok, Result-cases}
use briefed.Envelope.{
  Bytes, EncryptionContext, EnvelopeCipher, KmsClient, AesGcm, nonce_len, dek_len, encrypt, decrypt,
  unseal_with, excerpt_context, legacy_unbound_row_id, encrypt_excerpt, decrypt_bound_or_legacy,
  decrypt_excerpt,
}
use briefed.Envelope.Layout.{packed, unwrapped, decrypt-packed, encrypt-packed}

-- What KMS documents: a wrapped key is at most 6144 bytes long, it is unwrapped under the context of
-- the wrap, and under no other.
pub record IsKms (kms : KmsClient) : Type 0 where
  pub short :
      (key : String) (plaintext : Bytes) (context : EncryptionContext) (wrapped : Bytes)
      → kms.encrypt_key key plaintext context ≡ some wrapped
      → length wrapped ≤ 6144
  pub unwraps :
      (key : String) (plaintext : Bytes) (context : EncryptionContext) (wrapped : Bytes)
      → kms.encrypt_key key plaintext context ≡ some wrapped
      → kms.decrypt_key key wrapped context ≡ some plaintext
  pub binds :
      (key : String) (plaintext : Bytes) (context : EncryptionContext) (wrapped : Bytes)
      (other : EncryptionContext) (unwrapped : Bytes)
      → kms.encrypt_key key plaintext context ≡ some wrapped
      → kms.decrypt_key key wrapped other ≡ some unwrapped
      → context ≡ other

-- What AES-GCM promises: it opens what it sealed, and a sealed text has at least its tag.
pub record IsAesGcm (aes_gcm : AesGcm) : Type 0 where
  pub opens :
      (key nonce plaintext : Bytes)
      → aes_gcm.unseal key nonce (aes_gcm.seal key nonce plaintext) ≡ some plaintext
  pub tagged : (key nonce plaintext : Bytes) → aes_gcm.seal key nonce plaintext ≢ []

pub ok-inj : {E A : Type 0} {a b : A} → ◌≡◌ {A = Result E A} (ok a) (ok b) → a ≡ b
ok-inj e = ground arith

-- `NULL` for an empty excerpt, and a blob with a byte in it for any other.
abbrev pub IsStoredAs : Bytes → Option Bytes → Type 0
IsStoredAs [] stored = stored ≡ none
IsStoredAs (p ∷ ps) stored = (blob : Bytes) × (stored ≡ some blob) × (blob ≢ [])

row_id_of : (m m' u u' : String) → excerpt_context m u ≡ excerpt_context m' u' → m ≡ m'
unfolding excerpt_context lookup
row_id_of m m' u u' e = ap (λ c. get_or "row_id" "" c) e

user_id_of : (m m' u u' : String) → excerpt_context m u ≡ excerpt_context m' u' → u ≡ u'
unfolding excerpt_context lookup
user_id_of m m' u u' e = ap (λ c. get_or "user_id" "" c) e

module _ (cipher : EnvelopeCipher) (kms : IsKms cipher.client)
    (aes_gcm : IsAesGcm cipher.aes_gcm) where
  decrypt-encrypt :
      (dek nonce plaintext wrapped : Bytes) (context : EncryptionContext)
      → length dek ≡ dek_len
      → length nonce ≡ nonce_len
      → plaintext ≢ []
      → cipher.client.encrypt_key cipher.key_id dek context ≡ some wrapped
      → (blob : Bytes) × (encrypt cipher dek nonce plaintext context ≡ ok blob)
        × (blob ≢ [])
        × (decrypt cipher blob context ≡ ok plaintext)
  unfolding unseal_with
  decrypt-encrypt dek nonce plaintext w context hd hn ne e =
      let sealed : Bytes = cipher.aes_gcm.seal dek nonce plaintext in
      let le : length w ≤ 65535 = omega (arith, kms.short cipher.key_id dek context w e) in
      (
        packed w nonce sealed,
        encrypt-packed cipher context dek nonce plaintext w ne hn le e,
        λ x. absurd (ground arith),
        decrypt-packed cipher context w nonce sealed hn (aes_gcm.tagged dek nonce plaintext)
            ∙ ap (unwrapped cipher nonce sealed) (kms.unwraps cipher.key_id dek context w e)
            ∙ ground (arith, hd, aes_gcm.opens dek nonce plaintext),
      )

  decrypt_excerpt-some :
      (blob plaintext : Bytes) (m u : String)
      → blob ≢ []
      → decrypt cipher blob (excerpt_context m u) ≡ ok plaintext
      → decrypt_excerpt (some cipher) (some blob) m u ≡ ok plaintext
  unfolding decrypt_excerpt decrypt_bound_or_legacy
  decrypt_excerpt-some [] plaintext m u ne read = absurd (ne refl)
  decrypt_excerpt-some (b ∷ bs) plaintext m u ne read = ground arith

  -- Whenever KMS wraps the key, an excerpt is stored, an empty one as `NULL` and any other as a blob
  -- that is not empty, and what is stored is read back under the same message and user.
  pub decrypt_excerpt-encrypt_excerpt :
      (dek nonce plaintext wrapped : Bytes) (message_id user_id : String)
      → length dek ≡ dek_len
      → length nonce ≡ nonce_len
      → cipher.client.encrypt_key cipher.key_id dek (excerpt_context message_id user_id)
        ≡ some wrapped
      → (stored : Option Bytes) × (encrypt_excerpt
            (some cipher)
            dek
            nonce
            plaintext
            message_id
            user_id
          ≡ ok stored)
        × IsStoredAs plaintext stored
        × (decrypt_excerpt (some cipher) stored message_id user_id ≡ ok plaintext)
  unfolding encrypt_excerpt decrypt_excerpt
  decrypt_excerpt-encrypt_excerpt dek nonce [] w m u hd hn e = (none, refl, refl, refl)
  decrypt_excerpt-encrypt_excerpt dek nonce (p ∷ ps) w m u hd hn e =
      let (blob, stored, ne, read) =
        decrypt-encrypt dek nonce (p ∷ ps) w (excerpt_context m u) hd hn
          (λ x. absurd (ground arith)) e in
      (some blob, ground arith, (blob, refl, ne), decrypt_excerpt-some blob (p ∷ ps) m u ne read)

  encrypt_refused :
      (dek nonce plaintext blob : Bytes) (context : EncryptionContext)
      → plaintext ≢ []
      → cipher.client.encrypt_key cipher.key_id dek context ≡ none
      → encrypt cipher dek nonce plaintext context ≢ ok blob
  unfolding encrypt
  encrypt_refused dek nonce [] blob context ne refused stored = ne refl
  encrypt_refused dek nonce (p ∷ ps) blob context ne refused stored = ground arith

  encrypt_inv :
      (dek nonce plaintext blob : Bytes) (context : EncryptionContext)
      → length nonce ≡ nonce_len
      → plaintext ≢ []
      → encrypt cipher dek nonce plaintext context ≡ ok blob
      → (wrapped : Bytes) × (cipher.client.encrypt_key cipher.key_id dek context ≡ some wrapped)
        × (blob ≡ packed wrapped nonce (cipher.aes_gcm.seal dek nonce plaintext))
  encrypt_inv dek nonce plaintext blob context hn ne stored =
      elim (Option-cases (cipher.client.encrypt_key cipher.key_id dek context)) [
        | inl refused ↦ absurd (encrypt_refused dek nonce plaintext blob context ne refused stored)
        | inr (w, e) ↦
            let le : length w ≤ 65535 = omega (arith, kms.short cipher.key_id dek context w e) in
            (
              w,
              e,
              ok-inj (sym stored ∙ encrypt-packed cipher context dek nonce plaintext w ne hn le e),
            )
      ]

  -- A blob that is read back under any context was wrapped under it.
  decrypt_context :
      (dek nonce plaintext blob read : Bytes) (context other : EncryptionContext)
      → length nonce ≡ nonce_len
      → plaintext ≢ []
      → encrypt cipher dek nonce plaintext context ≡ ok blob
      → decrypt cipher blob other ≡ ok read
      → context ≡ other
  decrypt_context dek nonce plaintext blob read context other hn ne stored opened =
      let (w, e, same) = encrypt_inv dek nonce plaintext blob context hn ne stored in
      let sealed : Bytes = cipher.aes_gcm.seal dek nonce plaintext in
      let used : unwrapped cipher nonce sealed (cipher.client.decrypt_key cipher.key_id w other)
          ≡ ok read =
        sym (decrypt-packed cipher other w nonce sealed hn (aes_gcm.tagged dek nonce plaintext))
        ∙ ap (λ b. decrypt cipher b other) (sym same)
        ∙ opened in
      elim (Option-cases (cipher.client.decrypt_key cipher.key_id w other)) [
        | inl refused ↦ absurd (ground arith)
        | inr (q, d) ↦ kms.binds cipher.key_id dek context w other q e d
      ]

  stored_inv :
      (dek nonce plaintext blob : Bytes) (m u : String)
      → plaintext ≢ []
      → encrypt_excerpt (some cipher) dek nonce plaintext m u ≡ ok (some blob)
      → encrypt cipher dek nonce plaintext (excerpt_context m u) ≡ ok blob
  unfolding encrypt_excerpt
  stored_inv dek nonce [] blob m u ne stored = absurd (ne refl)
  stored_inv dek nonce (p ∷ ps) blob m u ne stored =
      elim (Result-cases (encrypt cipher dek nonce (p ∷ ps) (excerpt_context m u))) [
        | inl (b, e) ↦ ground arith
        | inr (x, e) ↦ absurd (ground arith)
      ]

  opened_inv :
      (blob read : Bytes) (m u : String)
      → blob ≢ []
      → decrypt_excerpt (some cipher) (some blob) m u ≡ ok read
      → (decrypt cipher blob (excerpt_context m u) ≡ ok read)
        ⊎ (decrypt cipher blob (excerpt_context legacy_unbound_row_id u) ≡ ok read)
  unfolding decrypt_excerpt decrypt_bound_or_legacy
  opened_inv [] read m u ne opened = absurd (ne refl)
  opened_inv (b ∷ bs) read m u ne opened =
      elim (Result-cases (decrypt cipher (b ∷ bs) (excerpt_context m u))) [
        | inl (q, e) ↦ inl (ground arith)
        | inr (x, e) ↦ inr (ground arith)
      ]

  -- An excerpt that was stored for a message of a user is read back only for a row of the same
  -- user, and of the same message; a message whose id is the text None is the exception.
  pub decrypt_excerpt-bound :
      (dek nonce plaintext blob read : Bytes) (m u m' u' : String)
      → length nonce ≡ nonce_len
      → plaintext ≢ []
      → encrypt_excerpt (some cipher) dek nonce plaintext m u ≡ ok (some blob)
      → decrypt_excerpt (some cipher) (some blob) m' u' ≡ ok read
      → (u ≡ u') × ((m ≡ m') ⊎ (m ≡ legacy_unbound_row_id))
  decrypt_excerpt-bound dek nonce plaintext blob read m u m' u' hn ne stored opened =
      let sealed : encrypt cipher dek nonce plaintext (excerpt_context m u) ≡ ok blob =
        stored_inv dek nonce plaintext blob m u ne stored in
      let (w, e, same) = encrypt_inv dek nonce plaintext blob (excerpt_context m u) hn ne sealed in
      let filled : blob ≢ [] = λ x. absurd (ground (arith, same, x)) in
      let bound = λ (other : EncryptionContext) (o : decrypt cipher blob other ≡ ok read).
        decrypt_context dek nonce plaintext blob read (excerpt_context m u) other hn ne sealed o in
      elim (opened_inv blob read m' u' filled opened) [
        | inl o ↦
            let c : excerpt_context m u ≡ excerpt_context m' u' = bound (excerpt_context m' u') o in
            (user_id_of m m' u u' c, inl (row_id_of m m' u u' c))
        | inr o ↦
            let c : excerpt_context m u ≡ excerpt_context legacy_unbound_row_id u' =
              bound (excerpt_context legacy_unbound_row_id u') o in
            (
              user_id_of m legacy_unbound_row_id u u' c,
              inr (row_id_of m legacy_unbound_row_id u u' c),
            )
      ]
