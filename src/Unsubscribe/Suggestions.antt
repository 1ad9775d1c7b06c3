-- ===== src/Unsubscribe/Suggestions.antt =====
-- `UnsubscribeSuggestionsRepo` of backend/app/services/unsubscribe/repository.py. A rationale is its
-- UTF-8 bytes; ratios and confidences are thousandths. A flush that fails is left out.
use Prim.Native.String.{◌++◌}
use briefed.Base.{
  ℕ, String, List, [], ◌∷◌, Bool, false, ◌&&◌, Option, none, some, str_eq, ◌==◌, if◌then◌else◌,
}
use briefed.Base.Result.{Result, ok, err}
use briefed.Rubric.Texts.{Text, equals}
use briefed.Envelope.{
  Bytes, EncryptionContext, EnvelopeCipher, CryptoError, encrypt, decrypt, content_context,
  is_empty_bytes,
}
use briefed.Unsubscribe.Header.{UnsubscribeAction}

pub record UnsubscribeSuggestionWrite : Type 0 where
  pub account_id : String
  pub user_id : String
  pub sender_domain : Text
  pub sender_email : Text
  pub frequency_30d : ℕ
  pub engagement_score : ℕ
  pub waste_rate : ℕ
  pub list_unsubscribe : Option UnsubscribeAction
  pub confidence : ℕ
  pub decision_source : String
  pub rationale : Bytes
  pub prompt_version_id : Option String
  pub model : String
  pub tokens_in : ℕ
  pub tokens_out : ℕ
  pub last_email_at : ℕ
  pub recent_subjects : List Text

-- A row of `unsubscribe_suggestions`.
pub record UnsubscribeSuggestion : Type 0 where
  pub account_id : String
  pub sender_email : Text
  pub sender_domain : Text
  pub frequency_30d : ℕ
  pub engagement_score : ℕ
  pub waste_rate : ℕ
  pub list_unsubscribe : Option UnsubscribeAction
  pub confidence : ℕ
  pub decision_source : String
  pub rationale_ct : Bytes
  pub prompt_version_id : Option String
  pub model : String
  pub tokens_in : ℕ
  pub tokens_out : ℕ
  pub last_email_at : ℕ
  pub recent_subjects : List Text
  pub dismissed : Bool
  pub dismissed_at : Option ℕ

-- The cipher, how an address is written in the encryption context, and what `os.urandom` returns for
-- the key and the nonce of a sender's row.
pub record UnsubscribeSuggestionsRepo : Type 0 where
  pub cipher : Option EnvelopeCipher
  pub text_of : Text → String
  pub dek : Text → Bytes
  pub nonce : Text → Bytes

unfoldable pub rationale_context :
    UnsubscribeSuggestionsRepo → String → Text → String → EncryptionContext
unfolding content_context
rationale_context repo account_id sender_email user_id =
    content_context "unsubscribe_suggestions" (account_id ++ ":" ++ repo.text_of sender_email)
      "unsubscribe_rationale" (some user_id)

-- The sentinel for an empty text.
abbrev pub or_null : Bytes → Bytes
or_null [] = 0 ∷ []
or_null (b ∷ bytes) = b ∷ bytes

-- `_encrypt_rationale`
unfoldable pub encrypt_rationale :
    UnsubscribeSuggestionsRepo → Bytes → String → Text → String → Result CryptoError Bytes
unfolding rationale_context
encrypt_rationale repo rationale account_id sender_email user_id = elim repo.cipher [
  | none ↦ ok (or_null rationale)
  | some c ↦
      encrypt c (repo.dek sender_email) (repo.nonce sender_email) (or_null rationale)
        (rationale_context repo account_id sender_email user_id)
]

abbrev pub without_null : Bytes → Bytes
without_null [] = []
without_null (b ∷ []) = if b == 0 then [] else b ∷ []
without_null (b ∷ c ∷ bytes) = b ∷ c ∷ bytes

-- `decrypt_rationale`
unfoldable pub decrypt_rationale :
    UnsubscribeSuggestionsRepo → UnsubscribeSuggestion → String → Result CryptoError Bytes
unfolding rationale_context
decrypt_rationale repo row user_id =
    if is_empty_bytes row.rationale_ct then ok [] else elim repo.cipher [
      | none ↦ ok (without_null row.rationale_ct)
      | some c ↦
          elim (decrypt c row.rationale_ct
            (rationale_context repo row.account_id row.sender_email user_id)) [
              | err e ↦ err e
              | ok plaintext ↦ ok (without_null plaintext)
            ]
    ]

-- The row with every column that `upsert` assigns, and the columns of a dismissal as they are given.
unfoldable pub row_of : UnsubscribeSuggestionWrite → Bytes → Bool → Option ℕ → UnsubscribeSuggestion
row_of w ciphertext dismissed dismissed_at = record {
  account_id = w.account_id;
  sender_email = w.sender_email;
  sender_domain = w.sender_domain;
  frequency_30d = w.frequency_30d;
  engagement_score = w.engagement_score;
  waste_rate = w.waste_rate;
  list_unsubscribe = w.list_unsubscribe;
  confidence = w.confidence;
  decision_source = w.decision_source;
  rationale_ct = ciphertext;
  prompt_version_id = w.prompt_version_id;
  model = w.model;
  tokens_in = w.tokens_in;
  tokens_out = w.tokens_out;
  last_email_at = w.last_email_at;
  recent_subjects = w.recent_subjects;
  dismissed = dismissed;
  dismissed_at = dismissed_at;
}

abbrev pub is_row : String → Text → UnsubscribeSuggestion → Bool
is_row account_id sender_email row =
    str_eq row.account_id account_id && equals row.sender_email sender_email

-- The first row of the key is assigned to, or there is a new row.
unfoldable pub put_row :
    UnsubscribeSuggestionWrite → Bytes → List UnsubscribeSuggestion → List UnsubscribeSuggestion
unfolding row_of
put_row w ciphertext [] = row_of w ciphertext false none ∷ []
put_row w ciphertext (row ∷ rows) =
    let rest = put_row w ciphertext rows in
    if is_row w.account_id w.sender_email row
    then row_of w ciphertext row.dismissed row.dismissed_at ∷ rows
    else row ∷ rest

unfoldable pub upsert :
    UnsubscribeSuggestionsRepo
    → UnsubscribeSuggestionWrite
    → List UnsubscribeSuggestion
    → Result CryptoError (List UnsubscribeSuggestion)
unfolding encrypt_rationale put_row
upsert repo w rows =
    elim (encrypt_rationale repo w.rationale w.account_id w.sender_email w.user_id) [
      | err e ↦ err e
      | ok ciphertext ↦ ok (put_row w ciphertext rows)
    ]
