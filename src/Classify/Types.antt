-- ===== src/Classify/Types.antt =====
-- The values of backend/app/services/classification/pipeline.py, and `TriageDecision` of
-- llm/schemas.py. Confidences of floats are millionths; the rules' are thousandths.
use briefed.Base.{ℕ, String, List, [], ◌∷◌, Bool, Option, none, some, str_eq, if◌then◌else◌}
use briefed.Base.Result.{Result}
use briefed.Tables.{Email, ConnectedAccount, Classification, Db}
use briefed.Envelope.{Bytes, CryptoError, EnvelopeCipher}
use briefed.Rubric.Clauses.{Python}
use briefed.Rubric.Engine.{EngineError}
use briefed.Llm.Types.{Fields, PromptSpec}
use briefed.Llm.Attempts
use briefed.Llm.Attempts.{Env}
use briefed.Llm.Client.{Client, CallError}
use briefed.Classify.Repository.{ClassificationsRepo}

-- `TriageDecision` of llm/schemas.py
pub record TriageDecision : Type 0 where
  pub category : String
  pub confidence : ℕ
  pub reasons_short : String
  pub is_newsletter : Bool

-- What Python and pydantic do: the validation, the texts of numbers and exceptions, the order of a
-- set, and the decoding of UTF-8, which may fail.
pub record Runtime : Type 0 where
  pub python : Python
  pub env : Env
  pub validate : Fields → Option TriageDecision
  pub set_order : List String → List String
  pub float_text : ℕ → String
  pub two_decimals : ℕ → String
  pub int_text : ℕ → String
  pub error_text : CallError → String
  pub decode : Bytes → Option String
  -- the name in the row of `prompt_versions`
  pub prompt_name : String → Option String

pub record ClassifyInputs : Type 0 where
  pub email_id : String
  pub user_id : String
  pub prompt : PromptSpec
  pub llm : Client
  pub repo : ClassificationsRepo
  pub prompt_version_id : String
  pub content_cipher : Option EnvelopeCipher

pub record ClassifyOutcome : Type 0 where
  pub email_id : String
  pub label : String
  pub score : ℕ
  pub decision_source : String
  pub tokens_in : ℕ
  pub tokens_out : ℕ
  pub cost_usd : ℕ
  pub llm_used : Bool

pub data ClassifyError : Type 0 where
  email_not_found account_not_found missing_variable not_utf8 provider_exception client_assertion :
      ClassifyError
  rule_error : EngineError → ClassifyError
  crypto_error : CryptoError → ClassifyError

pub record State : Type 0 where
  pub db : Db
  pub llm : Attempts.State

abbrev pub Outcome : Type 0
Outcome = Result ClassifyError ClassifyOutcome × State

abbrev pub low_confidence_threshold : ℕ
low_confidence_threshold = 550

abbrev pub needs_review_threshold : ℕ
needs_review_threshold = 550000

abbrev pub find_email : String → List Email → Option Email
find_email id [] = none
find_email id (e ∷ es) = let rest = find_email id es in if str_eq e.id id then some e else rest

abbrev pub find_account : String → List ConnectedAccount → Option ConnectedAccount
find_account id [] = none
find_account id (a ∷ xs) = let rest = find_account id xs in if str_eq a.id id then some a else rest

abbrev pub find_classification : String → List Classification → Option Classification
find_classification id [] = none
find_classification id (c ∷ cs) =
    let rest = find_classification id cs in if str_eq c.email_id id then some c else rest
