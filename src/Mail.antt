-- ===== src/Mail.antt =====
-- The value objects of backend/app/domain/providers.py that the services share.
use briefed.Base.{String, List, Bool, Option}

-- `UnsubscribeInfo`
pub record UnsubscribeInfo : Type 0 where
  pub http_urls : List String
  pub mailto : Option String
  pub one_click : Bool

-- The fields of `EmailMessage` that are looked at.
pub record EmailMessage : Type 0 where
  pub message_id : String
  pub content_hash : String
  pub from_email : String
  pub subject : String
  pub snippet : String
  pub labels : List String
  pub list_unsubscribe : Option UnsubscribeInfo
