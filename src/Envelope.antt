-- ===== src/Envelope.antt =====
-- backend/app/core/security.py, core/content_crypto.py and services/ingestion/content.py. Bytes are
-- numbers, and a text stands for its UTF-8 bytes, so encoding it and decoding it again change nothing.
mod Layout
pub mod Excerpts
mod Tests
use briefed.Base.{
  true, false, str_eq, ℕ, ◌+◌, ◌*◌, ◌/◌, ◌%◌, String, List, [], ◌∷◌, ◌++◌, Bool, not, ◌||◌, Option,
  none, some, length, ltb, ◌==◌, take, drop, if◌then◌else◌,
}
use briefed.Base.Dict.{Dict}
use briefed.Base.Result.{Result, ok, err}

abbrev pub Bytes : Type 0
Bytes = List ℕ

-- `fields`, in the order in which they were added
abbrev pub EncryptionContext : Type 0
EncryptionContext = Dict String

-- The KMS client, where `none` is an exception, and AES-GCM, where `none` is `InvalidTag`.
pub record KmsClient : Type 0 where
  pub encrypt_key : String → Bytes → EncryptionContext → Option Bytes
  pub decrypt_key : String → Bytes → EncryptionContext → Option Bytes

pub record AesGcm : Type 0 where
  pub seal : Bytes → Bytes → Bytes → Bytes
  pub unseal : Bytes → Bytes → Bytes → Option Bytes

pub record EnvelopeCipher : Type 0 where
  pub key_id : String
  pub client : KmsClient
  pub aes_gcm : AesGcm

-- The `CryptoError`s by their messages, and the `struct.error` of a length of more than two bytes.
pub data CryptoError : Type 0 where
  empty_key_id : CryptoError
  empty_plaintext : CryptoError
  kms_encrypt_failed : CryptoError
  struct_error : CryptoError
  too_short : CryptoError
  unsupported_version : ℕ → CryptoError
  unexpected_nonce_length : ℕ → CryptoError
  truncated : CryptoError
  kms_decrypt_failed : CryptoError
  unexpected_dek_length : CryptoError
  not_authentic : CryptoError

abbrev pub version_byte : ℕ
version_byte = 1

abbrev pub nonce_len : ℕ
nonce_len = 12

abbrev pub dek_len : ℕ
dek_len = 32

abbrev pub is_empty_bytes : Bytes → Bool
is_empty_bytes [] = true
is_empty_bytes (b ∷ bs) = false

-- `EnvelopeCipher(...)`
unfoldable pub new_cipher : String → KmsClient → AesGcm → Result CryptoError EnvelopeCipher
new_cipher key_id client aes_gcm =
    if str_eq key_id ""
    then err empty_key_id
    else ok (record { key_id = key_id; client = client; aes_gcm = aes_gcm })

-- `_HEADER_STRUCT.pack`: a byte and two big-endian numbers of two bytes
unfoldable pub pack_header : ℕ → ℕ → ℕ → Option Bytes
pack_header version wrapped_len nonce_length =
    if ltb 65535 wrapped_len || ltb 65535 nonce_length
    then none
    else some (
        version
        ∷ wrapped_len / 256
        ∷ wrapped_len % 256
        ∷ nonce_length / 256
        ∷ nonce_length % 256
        ∷ [])

-- `encrypt`, with what `os.urandom` returned for the key and for the nonce
unfoldable pub encrypt :
    EnvelopeCipher → Bytes → Bytes → Bytes → EncryptionContext → Result CryptoError Bytes
unfolding pack_header
encrypt cipher dek nonce plaintext context =
    if is_empty_bytes plaintext
    then err empty_plaintext
    else (let ciphertext = cipher.aes_gcm.seal dek nonce plaintext in
        elim (cipher.client.encrypt_key cipher.key_id dek context) [
          | none ↦ err kms_encrypt_failed
          | some wrapped_dek ↦ elim (pack_header version_byte (length wrapped_dek) (length nonce)) [
            | none ↦ err struct_error
            | some header ↦ ok (header ++ wrapped_dek ++ nonce ++ ciphertext)
          ]
        ])

-- The end of `decrypt`, with the wrapped key unwrapped.
unfoldable pub unseal_with : EnvelopeCipher → Bytes → Bytes → Bytes → Result CryptoError Bytes
unseal_with cipher nonce ciphertext dek =
    if not (length dek == dek_len)
    then err unexpected_dek_length
    else elim (cipher.aes_gcm.unseal dek nonce ciphertext) [
      | none ↦ err not_authentic
      | some plaintext ↦ ok plaintext
    ]

-- `decrypt` with the blob taken apart.
unfoldable pub decrypt_parts :
    EnvelopeCipher
    → ℕ
    → ℕ
    → ℕ
    → Bytes
    → Bytes
    → Bytes
    → EncryptionContext
    → Result CryptoError Bytes
unfolding unseal_with
decrypt_parts cipher version wrapped_len nonce_length wrapped_dek nonce ciphertext context =
    if not (version == version_byte)
    then err (unsupported_version version)
    else if not (nonce_length == nonce_len)
    then err (unexpected_nonce_length nonce_length)
    else if not (length wrapped_dek == wrapped_len)
        || not (length nonce == nonce_length)
        || is_empty_bytes ciphertext
    then err truncated
    else elim (cipher.client.decrypt_key cipher.key_id wrapped_dek context) [
      | none ↦ err kms_decrypt_failed
      | some dek ↦ unseal_with cipher nonce ciphertext dek
    ]

-- The slices after the header; `body` is what follows it.
unfoldable pub decrypt_body :
    EnvelopeCipher → ℕ → ℕ → ℕ → Bytes → EncryptionContext → Result CryptoError Bytes
decrypt_body cipher version wrapped_len nonce_length body context =
    decrypt_parts cipher version wrapped_len nonce_length (take wrapped_len body)
      (take nonce_length (drop wrapped_len body)) (drop nonce_length (drop wrapped_len body))
      context

-- `decrypt`; the header is five bytes.
unfoldable pub decrypt : EnvelopeCipher → Bytes → EncryptionContext → Result CryptoError Bytes
decrypt cipher (v ∷ a ∷ b ∷ c ∷ d ∷ body) context =
    decrypt_body cipher v (a * 256 + b) (c * 256 + d) body context
decrypt cipher _ context = err too_short

unfoldable pub token_context : String → String → EncryptionContext
token_context account_id purpose = ("account_id", account_id) ∷ ("purpose", purpose) ∷ []

unfoldable pub content_context : String → String → String → Option String → EncryptionContext
content_context table row_id purpose user_id =
    ("table", table)
    ∷ ("row_id", row_id)
    ∷ ("purpose", purpose)
    ∷ elim user_id [ none ↦ [] | some user ↦ ("user_id", user) ∷ [] ]

-- `_excerpt_context`, and the row id that unbound excerpts carry
unfoldable pub excerpt_context : String → String → EncryptionContext
unfolding content_context
excerpt_context row_id user_id =
    content_context "email_content_blobs" row_id "email_body_excerpt" (some user_id)

abbrev pub legacy_unbound_row_id : String
legacy_unbound_row_id = "None"

-- `encrypt_excerpt`; `none` is `NULL`.
unfoldable pub encrypt_excerpt :
    Option EnvelopeCipher
    → Bytes
    → Bytes
    → Bytes
    → String
    → String
    → Result CryptoError (Option Bytes)
encrypt_excerpt cipher dek nonce plaintext message_id user_id =
    if is_empty_bytes plaintext then ok none else elim cipher [
      | none ↦ ok (some plaintext)
      | some c ↦ elim (encrypt c dek nonce plaintext (excerpt_context message_id user_id)) [
        | err e ↦ err e
        | ok blob ↦ ok (some blob)
      ]
    ]

-- The two tries of `decrypt_excerpt`.
unfoldable pub decrypt_bound_or_legacy :
    EnvelopeCipher → Bytes → String → String → Result CryptoError Bytes
decrypt_bound_or_legacy cipher blob message_id user_id =
    elim (decrypt cipher blob (excerpt_context message_id user_id)) [
      | ok plaintext ↦ ok plaintext
      | err e ↦ decrypt cipher blob (excerpt_context legacy_unbound_row_id user_id)
    ]

-- `decrypt_excerpt`, for the stored bytes of a row.
unfoldable pub decrypt_excerpt :
    Option EnvelopeCipher → Option Bytes → String → String → Result CryptoError Bytes
unfolding decrypt_bound_or_legacy
decrypt_excerpt cipher none message_id user_id = ok []
decrypt_excerpt cipher (some []) message_id user_id = ok []
decrypt_excerpt cipher (some (b ∷ bs)) message_id user_id = elim cipher [
  | none ↦ ok (b ∷ bs)
  | some c ↦ decrypt_bound_or_legacy c (b ∷ bs) message_id user_id
]
