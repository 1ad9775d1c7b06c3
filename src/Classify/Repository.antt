-- ===== src/Classify/Repository.antt =====
-- `ClassificationsRepo` of backend/app/services/classification/repository.py, but for the reading of
-- the reasons. JSON texts are Python's, a parameter; a flush that fails is left out.
use briefed.Base.{ℕ, String, List, [], ◌∷◌, Bool, Option, none, some, str_eq, if◌then◌else◌}
use briefed.Base.Result.{Result, ok, err}
use briefed.Tables.{Classification, Db}
use briefed.Llm.Types.{Fields}
use briefed.Envelope.{
  Bytes, EncryptionContext, EnvelopeCipher, CryptoError, encrypt, content_context,
}

pub record ClassificationWrite : Type 0 where
  pub email_id : String
  pub label : String
  pub score : ℕ
  pub rubric_version : ℕ
  pub prompt_version_id : Option String
  pub decision_source : String
  pub model : String
  pub tokens_in : ℕ
  pub tokens_out : ℕ
  pub is_newsletter : Bool
  pub reasons : Fields
  pub user_id : String
  pub needs_review : Bool

-- The cipher, `json.dumps` as UTF-8 bytes, and what `os.urandom` returns for a key and a nonce.
pub record ClassificationsRepo : Type 0 where
  pub cipher : Option EnvelopeCipher
  pub dumps : Fields → Bytes
  pub dek : Bytes
  pub nonce : Bytes

abbrev pub reasons_context : String → String → EncryptionContext
reasons_context email_id user_id =
    content_context "classifications" email_id "classifications_reasons" (some user_id)

-- `_encrypt_reasons`
unfoldable pub encrypt_reasons :
    ClassificationsRepo → Fields → String → String → Result CryptoError Bytes
encrypt_reasons repo reasons email_id user_id =
    let plaintext = repo.dumps reasons in
    elim repo.cipher [
      | none ↦ ok plaintext
      | some c ↦ encrypt c repo.dek repo.nonce plaintext (reasons_context email_id user_id)
    ]

-- The row with the columns that `upsert` assigns, and its reasons.
unfoldable pub row_of : ClassificationWrite → Option Bytes → Classification
row_of w reasons_ct = record {
  email_id = w.email_id;
  label = w.label;
  score = w.score;
  rubric_version = w.rubric_version;
  prompt_version_id = w.prompt_version_id;
  decision_source = w.decision_source;
  model = w.model;
  tokens_in = w.tokens_in;
  tokens_out = w.tokens_out;
  is_newsletter = w.is_newsletter;
  needs_review = w.needs_review;
  reasons_ct = reasons_ct;
}

-- The first row of the email is replaced, or there is a new row.
unfoldable pub put_row : Classification → List Classification → List Classification
put_row row [] = row ∷ []
put_row row (c ∷ cs) =
    let rest = put_row row cs in if str_eq c.email_id row.email_id then row ∷ cs else c ∷ rest

-- The reasons that the email's row has so far.
unfoldable pub reasons_of : String → List Classification → Option Bytes
reasons_of email_id [] = none
reasons_of email_id (c ∷ cs) =
    let rest = reasons_of email_id cs in if str_eq c.email_id email_id then c.reasons_ct else rest

abbrev pub put : ClassificationWrite → Option Bytes → Db → Db
put w reasons_ct db = record db {
  classifications = put_row (row_of w reasons_ct) db.classifications;
}

-- The columns before the reasons are assigned before the encryption, which may raise: what the session
-- then holds has not been committed.
unfoldable pub upsert :
    ClassificationsRepo → ClassificationWrite → Db → Result CryptoError (Unit {0}) × Db
unfolding encrypt_reasons row_of put_row reasons_of
upsert repo w db = elim (encrypt_reasons repo w.reasons w.email_id w.user_id) [
  | err e ↦ (err e, put w (reasons_of w.email_id db.classifications) db)
  | ok ciphertext ↦ (ok tt, put w (some ciphertext) db)
]
