-- ===== src/Envelope/Layout.antt =====
-- The packed blob: what `encrypt` makes and how `decrypt` takes it apart.
use mathlib.Core.Path.{ap₂}
use briefed.Base.{
  ◌+◌, ◌*◌, ◌/◌, ◌%◌, ◌≤◌, ◌≡◌, ◌≢◌, refl, ◌∙◌, [], ◌∷◌, ◌++◌, append_assoc, Option, none, some,
  Option-cases, inl, inr, length, take-append, drop-append, arith,
}
use briefed.Base.Result.{Result, ok, err}
use briefed.Envelope.{
  Bytes, EncryptionContext, EnvelopeCipher, CryptoError, version_byte, nonce_len, pack_header,
  encrypt, unseal_with, decrypt_parts, decrypt_body, decrypt, kms_decrypt_failed,
}

-- A blob of the current version.
abbrev pub packed : Bytes → Bytes → Bytes → Bytes
packed wrapped_dek nonce ciphertext =
    version_byte
    ∷ length wrapped_dek / 256
    ∷ length wrapped_dek % 256
    ∷ length nonce / 256
    ∷ length nonce % 256
    ∷ (wrapped_dek ++ (nonce ++ ciphertext))

abbrev pub unwrapped : EnvelopeCipher → Bytes → Bytes → Option Bytes → Result CryptoError Bytes
unwrapped cipher nonce ciphertext none = err kms_decrypt_failed
unwrapped cipher nonce ciphertext (some dek) = unseal_with cipher nonce ciphertext dek

decrypt_parts-unwrapped :
    (cipher : EnvelopeCipher) (context : EncryptionContext) (w n c : Bytes)
    → length n ≡ nonce_len
    → c ≢ []
    → decrypt_parts cipher version_byte (length w) (length n) w n c context
      ≡ unwrapped cipher n c (cipher.client.decrypt_key cipher.key_id w context)
unfolding decrypt_parts
decrypt_parts-unwrapped cipher context w n [] h ne = absurd (ne refl)
decrypt_parts-unwrapped cipher context w n (b ∷ bs) h ne =
    elim (Option-cases (cipher.client.decrypt_key cipher.key_id w context)) [
      | inl refused ↦ ground (arith, h)
      | inr (dek, e) ↦ ground (arith, h)
    ]

module _ (cipher : EnvelopeCipher) (context : EncryptionContext) where
  decrypt_body-append :
      (wrapped_dek nonce ciphertext : Bytes)
      → length nonce ≡ nonce_len
      → ciphertext ≢ []
      → decrypt_body cipher version_byte
          (length wrapped_dek)
          (length nonce)
          (wrapped_dek ++ (nonce ++ ciphertext))
          context
        ≡ unwrapped cipher nonce ciphertext
            (cipher.client.decrypt_key cipher.key_id wrapped_dek context)
  unfolding decrypt_body
  decrypt_body-append w n c h ne =
      rw (take-append w (n ++ c), drop-append w (n ++ c), take-append n c, drop-append n c)
        (decrypt_parts-unwrapped cipher context w n c h ne)

  pub decrypt-packed :
      (wrapped_dek nonce ciphertext : Bytes)
      → length nonce ≡ nonce_len
      → ciphertext ≢ []
      → decrypt cipher (packed wrapped_dek nonce ciphertext) context
        ≡ unwrapped cipher nonce ciphertext
            (cipher.client.decrypt_key cipher.key_id wrapped_dek context)
  unfolding decrypt
  decrypt-packed w n c h ne =
      let a : length w / 256 * 256 + length w % 256 ≡ length w = omega arith in
      let b : length n / 256 * 256 + length n % 256 ≡ length n = omega arith in
      ap₂ (λ x y. decrypt_body cipher version_byte x y (w ++ (n ++ c)) context) a b
      ∙ decrypt_body-append w n c h ne

  pub encrypt-packed :
      (dek nonce plaintext wrapped_dek : Bytes)
      → plaintext ≢ []
      → length nonce ≡ nonce_len
      → length wrapped_dek ≤ 65535
      → cipher.client.encrypt_key cipher.key_id dek context ≡ some wrapped_dek
      → encrypt cipher dek nonce plaintext context
        ≡ ok (packed wrapped_dek nonce (cipher.aes_gcm.seal dek nonce plaintext))
  unfolding encrypt pack_header
  encrypt-packed dek nonce [] w ne h le e = absurd (ne refl)
  encrypt-packed dek nonce (p ∷ ps) w ne h le e =
      let short : pack_header version_byte (length w) (length nonce)
          ≡ some (
              version_byte
              ∷ length w / 256
              ∷ length w % 256
              ∷ length nonce / 256
              ∷ length nonce % 256
              ∷ []) =
        ground (arith, h, le) in
      rw (e, short, append_assoc w nonce (cipher.aes_gcm.seal dek nonce (p ∷ ps))) refl
