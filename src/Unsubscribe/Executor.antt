-- ===== src/Unsubscribe/Executor.antt =====
-- backend/app/services/unsubscribe/executor.py. What Python's libraries read from a URL, the registry
-- of special addresses, the name service and the senders' servers are a `Network`, whose answers depend
-- on the step of the world; the name that the client looks up again to connect is the server's side.
pub mod Guarded
pub mod Requests
use briefed.Base.{
  ℕ, ◌+◌, ◌-◌, ◌/◌, ◌%◌, ◌^◌, String, List, [], ◌∷◌, Bool, true, false, not, ◌&&◌, ◌||◌, Option,
  none, some, leb, ltb, ◌==◌, if◌then◌else◌,
}
use briefed.Base.Result.{Result, ok, err}
use briefed.Schedule.Slot.{codes}
use briefed.Rubric.Texts.{Text, lower, equals, is_empty}
use briefed.Unsubscribe.Header.{UnsubscribeAction, first_https, preferred_url}

-- `_MAX_BODY_BYTES`
abbrev pub max_body_bytes : ℕ
max_body_bytes = 65536

pub data Address : Type 0 where
  v4 : ℕ → Address
  v6 : ℕ → Address

-- `httpx.HTTPError`, `httpx.InvalidURL`, which is none of these, or a status and the lengths of the
-- chunks of the body, where `none` is an error while reading.
pub data Answer : Type 0 where
  transport_error invalid_url : Answer
  response : ℕ → List (Option ℕ) → Answer

-- `socket.gaierror`, or the `UnicodeError` of a label of the name that is empty or too long.
pub data LookupError : Type 0 where
  gaierror unicode_error : LookupError

pub record Network : Type 0 where
  -- `urlsplit(url).scheme` and `.hostname`; `none` is a `ValueError`.
  pub urlsplit : Text → Option (Text × Option Text)
  -- `ipaddress.ip_address`, also of what `socket.getaddrinfo` answers at a step: `none` is a
  -- `ValueError`.
  pub ip_address : Text → Option Address
  pub getaddrinfo : ℕ → Text → Result LookupError (List (Option Address))
  pub is_private : Address → Bool
  pub is_loopback : Address → Bool
  pub is_link_local : Address → Bool
  pub is_reserved : Address → Bool
  pub is_multicast : Address → Bool
  pub is_unspecified : Address → Bool
  pub post : ℕ → Text → Answer

-- The steps taken so far, and the URLs that were posted to, newest first.
pub record World : Type 0 where
  pub step : ℕ
  pub requests : List Text

pub data ExecuteStatus : Type 0 where
  unsubscribed manual_required failed : ExecuteStatus

pub data ExecutedVia : Type 0 where
  one_click via_none : ExecutedVia

pub data ExecuteError : Type 0 where
  no_actionable_target ssrf_blocked request_failed : ExecuteError
  http_status : ℕ → ExecuteError

pub record ExecuteOutcome : Type 0 where
  pub status : ExecuteStatus
  pub executed_via : ExecutedVia
  pub manual_url : Option Text
  pub error : Option ExecuteError
  pub message : String

-- The exceptions that leave `execute_unsubscribe`.
pub data Uncaught : Type 0 where
  uncaught_value_error invalid_url_error : Uncaught

-- `UnsafeUnsubscribeURLError` by its messages, and the plain `ValueError` of `urlsplit` or a look-up.
pub data UnsafeUrl : Type 0 where
  scheme_not_allowed missing_host non_ascii_host value_error not_resolved unparseable_address :
      UnsafeUrl
  non_public_address : Address → UnsafeUrl

-- `address.ipv4_mapped`
unfoldable pub ipv4_mapped : ℕ → Option ℕ
ipv4_mapped n = if n / 2 ^ 32 == 0xffff then some (n % 2 ^ 32) else none

-- `address in _CGNAT_V4`, the network 100.64.0.0/10
unfoldable pub is_cgnat : ℕ → Bool
is_cgnat n = n / 2 ^ 22 == 401

-- `host.isascii()`
unfoldable pub is_ascii : Text → Bool
is_ascii [] = true
is_ascii (c ∷ cs) = leb c 127 && is_ascii cs

module _ (net : Network) where
  unfoldable pub is_special : Address → Bool
  is_special a =
      net.is_private a
      || net.is_loopback a
      || net.is_link_local a
      || net.is_reserved a
      || net.is_multicast a
      || net.is_unspecified a

  unfoldable pub is_public_v4 : ℕ → Bool
  unfolding is_special is_cgnat
  is_public_v4 n = if is_special (v4 n) then false else not (is_cgnat n)

  -- `_is_public_address`
  unfoldable pub is_public_address : Address → Bool
  unfolding is_special is_public_v4 ipv4_mapped
  is_public_address (v4 n) = is_public_v4 n
  is_public_address (v6 n) = elim (ipv4_mapped n) [
    | some mapped ↦ is_public_v4 mapped
    | none ↦ not (is_special (v6 n))
  ]

  -- The loop over `infos`.
  unfoldable pub parse_infos : List (Option Address) → Result UnsafeUrl (List Address)
  parse_infos [] = ok []
  parse_infos (none ∷ infos) = err unparseable_address
  parse_infos (some a ∷ infos) = elim (parse_infos infos) [
    | err e ↦ err e
    | ok addresses ↦ ok (a ∷ addresses)
  ]

  abbrev pub not_empty : Result UnsafeUrl (List Address) → Result UnsafeUrl (List Address)
  not_empty (err e) = err e
  not_empty (ok []) = err not_resolved
  not_empty (ok (a ∷ addresses)) = ok (a ∷ addresses)

  -- `except socket.gaierror`
  abbrev pub lookup_failure : LookupError → UnsafeUrl
  lookup_failure gaierror = not_resolved
  lookup_failure unicode_error = value_error

  -- `_resolve_addresses`
  unfoldable pub resolve_addresses : ℕ → Text → Result UnsafeUrl (List Address)
  unfolding parse_infos
  resolve_addresses step host = elim (net.ip_address host) [
    | some a ↦ ok (a ∷ [])
    | none ↦ elim (net.getaddrinfo step host) [
      | err e ↦ err (lookup_failure e)
      | ok infos ↦ not_empty (parse_infos infos)
    ]
  ]

  unfoldable pub check_addresses : List Address → Result UnsafeUrl (Unit {0})
  unfolding is_public_address
  check_addresses [] = ok tt
  check_addresses (a ∷ addresses) =
      let rest = check_addresses addresses in
      if not (is_public_address a) then err (non_public_address a) else rest

  unfoldable pub check_host : ℕ → Text → Result UnsafeUrl (Unit {0})
  unfolding resolve_addresses check_addresses is_ascii
  check_host step host =
      if is_empty host
      then err missing_host
      else if not (is_ascii host)
      then err non_ascii_host
      else elim (resolve_addresses step host) [
        | err e ↦ err e
        | ok addresses ↦ check_addresses addresses
      ]

  unfoldable pub is_allowed_scheme : Text → Bool
  unfolding equals
  is_allowed_scheme scheme = equals scheme (codes "http") || equals scheme (codes "https")

  unfoldable pub check_parts : ℕ → Text × Option Text → Result UnsafeUrl (Unit {0})
  unfolding check_host lower is_allowed_scheme
  check_parts step (scheme, hostname) =
      if not (is_allowed_scheme (lower scheme))
      then err scheme_not_allowed
      else elim hostname [ none ↦ err missing_host | some host ↦ check_host step host ]

  -- `validate_unsubscribe_url`
  unfoldable pub validate_unsubscribe_url : ℕ → Text → Result UnsafeUrl (Unit {0})
  unfolding check_parts
  validate_unsubscribe_url step url = elim (net.urlsplit url) [
    | none ↦ err value_error
    | some parts ↦ check_parts step parts
  ]

-- `_drain_bounded`: the bytes read, or `none` for an error.
unfoldable pub drain_bounded : ℕ → List (Option ℕ) → Option ℕ
drain_bounded read [] = some read
drain_bounded read (none ∷ chunks) = none
drain_bounded read (some n ∷ chunks) =
    let rest = drain_bounded (read + n) chunks in
    if leb max_body_bytes (read + n) then some (read + n) else rest

abbrev pub failure : ExecuteError → String → ExecuteOutcome
failure e message = record {
  status = failed;
  executed_via = via_none;
  manual_url = none;
  error = some e;
  message = message;
}

abbrev pub request_error : ExecuteOutcome
request_error = failure request_failed "Could not reach the sender's unsubscribe endpoint."

unfoldable pub outcome_of_status : ℕ → ExecuteOutcome
outcome_of_status status_code =
    if leb 200 status_code && ltb status_code 300
    then record {
      status = unsubscribed;
      executed_via = one_click;
      manual_url = none;
      error = none;
      message = "Unsubscribed via the sender's one-click endpoint.";
    }
    else failure (http_status status_code) "The sender's unsubscribe endpoint rejected the request."

unfoldable pub outcome_of_answer : Answer → Result Uncaught ExecuteOutcome
unfolding outcome_of_status drain_bounded
outcome_of_answer transport_error = ok request_error
outcome_of_answer invalid_url = err invalid_url_error
outcome_of_answer (response status_code body) = elim (drain_bounded 0 body) [
  | none ↦ ok request_error
  | some read ↦ ok (outcome_of_status status_code)
]

-- `_one_click_url`
unfoldable pub one_click_url : UnsubscribeAction → Option Text
unfolding first_https
one_click_url action = if not action.one_click then none else first_https action.http_urls

-- `except UnsafeUnsubscribeURLError`
unfoldable pub blocked : UnsafeUrl → Result Uncaught ExecuteOutcome
blocked value_error = err uncaught_value_error
blocked e =
    ok (failure ssrf_blocked "The unsubscribe target was blocked by Briefed's safety checks.")

-- The outcome without a one-click request, for the preferred URL.
unfoldable pub manual_outcome : Option Text → ExecuteOutcome
manual_outcome (some manual_url) = record {
  status = manual_required;
  executed_via = via_none;
  manual_url = some manual_url;
  error = none;
  message = "Open the unsubscribe link to finish — this sender does not support one-click.";
}
manual_outcome none =
    failure no_actionable_target "This sender did not advertise an unsubscribe action."

module _ (net : Network) where
  -- `_attempt_one_click`
  unfoldable pub attempt_one_click : Text → World → Result Uncaught ExecuteOutcome × World
  unfolding validate_unsubscribe_url outcome_of_answer blocked
  attempt_one_click url w = elim (validate_unsubscribe_url net w.step url) [
    | err e ↦ (blocked e, record w { step = w.step + 1 })
    | ok _ ↦ (
      outcome_of_answer (net.post (w.step + 1) url),
      record { step = w.step + 2; requests = url ∷ w.requests },
    )
  ]

  unfoldable pub execute_unsubscribe :
      UnsubscribeAction → World → Result Uncaught ExecuteOutcome × World
  unfolding one_click_url attempt_one_click preferred_url manual_outcome
  execute_unsubscribe action w = elim (one_click_url action) [
    | some url ↦ attempt_one_click url w
    | none ↦ (ok (manual_outcome (preferred_url action)), w)
  ]
