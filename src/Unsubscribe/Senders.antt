-- ===== src/Unsubscribe/Senders.antt =====
-- `aggregate_sender_stats` and `score_sender` of backend/app/services/unsubscribe/aggregator.py. Ratios
-- are thousandths, rounded half to even as `quantize` does; addresses and subjects are ASCII. How the
-- database compares addresses is a parameter, and rows that it does not order stay as they were.
pub mod Groups
pub mod Totals
pub mod Scores
use mathlib.Core.List.{reverse}
use briefed.Base.{
  ℕ, zero, suc, ◌+◌, ◌-◌, ◌*◌, ◌/◌, ◌%◌, min, max, String, List, [], ◌∷◌, ◌++◌, Bool, true, false,
  not, ◌&&◌, ◌||◌, Option, none, some, map, any, filter, take, length, ltb, leb, ◌==◌, str_eq,
  if◌then◌else◌, is_some,
}
use briefed.Mail.{UnsubscribeInfo}
use briefed.Tables.{Email, Classification}
use briefed.Schedule.Slot.{codes, strip}
use briefed.Rubric.Texts.{Text, lower, equals, is_empty}
use briefed.Classify.Types.{find_classification}
use briefed.Unsubscribe.Header.{UnsubscribeAction}

-- `_LOOKBACK_DAYS`, `_VOLUME_THRESHOLD`, `_WASTE_THRESHOLD`, `_ENGAGEMENT_CEILING`,
-- `_SUBJECT_SAMPLE_COUNT` and `_MAX_SUBJECT_LEN`
abbrev pub lookback_seconds : ℕ
lookback_seconds = 30 * 86400

abbrev pub volume_threshold : ℕ
volume_threshold = 5

abbrev pub waste_threshold : ℕ
waste_threshold = 500

abbrev pub engagement_ceiling : ℕ
engagement_ceiling = 200

abbrev pub subject_sample_count : ℕ
subject_sample_count = 6

abbrev pub max_subject_len : ℕ
max_subject_len = 160

pub record SenderStats : Type 0 where
  pub sender_email : Text
  pub sender_domain : Text
  pub frequency_30d : ℕ
  pub positive_count : ℕ
  pub waste_count : ℕ
  pub classified_total : ℕ
  pub engagement_score : ℕ
  pub waste_rate : ℕ
  pub list_unsubscribe : Option UnsubscribeAction
  pub last_email_at : ℕ
  pub recent_subjects : List Text

pub record CriteriaScore : Type 0 where
  pub noisy : Bool
  pub low_value : Bool
  pub disengaged : Bool
  pub hit_count : ℕ

-- `CriteriaScore.labels`
unfoldable pub labels : CriteriaScore → List String
labels s =
    (if s.noisy then "noisy" ∷ [] else [])
    ++ ((if s.low_value then "low_value" ∷ [] else [])
        ++ (if s.disengaged then "disengaged" ∷ [] else []))

-- `_POSITIVE_LABELS` and `_WASTE_LABELS`
unfoldable pub is_positive : String → Bool
is_positive label = str_eq label "must_read" || str_eq label "good_to_read"

unfoldable pub is_waste : String → Bool
is_waste label = str_eq label "waste" || str_eq label "ignore"

-- `_normalize_sender`
unfoldable pub normalize_sender : String → Text
unfolding lower strip
normalize_sender raw = lower (strip (codes raw))

unfoldable pub until_at : Text → Text
until_at [] = []
until_at (c ∷ cs) = let rest = until_at cs in if c == b'@' then [] else c ∷ rest

-- `_domain_of`
unfoldable pub domain_of : Text → Text
unfolding until_at
domain_of sender_email =
    let domain = reverse (until_at (reverse sender_email)) in
    if is_empty domain then sender_email else domain

-- `_sanitize_subject`
unfoldable pub sanitize_subject : String → Text
unfolding strip
sanitize_subject subject =
    take max_subject_len
      (map (λ (c : ℕ). if c == 10 || c == 13 then 32 else c) (strip (codes subject)))

abbrev pub some_text : Option String → Option Text
some_text none = none
some_text (some s) = if str_eq s "" then none else some (codes s)

-- `_unsub_from_stored` of the JSON object that the ingestion stores.
unfoldable pub unsub_from_stored : Option UnsubscribeInfo → Option UnsubscribeAction
unsub_from_stored none = none
unsub_from_stored (some info) =
    if is_empty info.http_urls && not (is_some (some_text info.mailto))
    then none
    else some (record {
      http_urls = map codes info.http_urls;
      mailto = some_text info.mailto;
      one_click = info.one_click;
    })

-- `email_window`
unfoldable pub email_window : String → ℕ → List Email → List Email
email_window account_id now emails =
    filter
      (λ (e : Email).
        str_eq e.account_id account_id && leb now (e.internal_date + lookback_seconds))
      emails

-- `order_by(Email.from_addr, Email.internal_date.desc())`
unfoldable pub comes_first : (String → String → Bool) → Email → Email → Bool
comes_first collate a b =
    if str_eq a.from_addr b.from_addr
    then leb b.internal_date a.internal_date
    else collate a.from_addr b.from_addr

unfoldable pub insert_row : (String → String → Bool) → Email → List Email → List Email
unfolding comes_first
insert_row collate row [] = row ∷ []
insert_row collate row (e ∷ es) =
    let rest = insert_row collate row es in
    if comes_first collate row e then row ∷ e ∷ es else e ∷ rest

unfoldable pub order_rows : (String → String → Bool) → List Email → List Email
unfolding insert_row
order_rows collate [] = []
order_rows collate (row ∷ rows) = insert_row collate row (order_rows collate rows)

-- `latest_unsub.get(sender)` after the loop over the rows with a header.
unfoldable pub latest_unsub : Text → List Email → Option UnsubscribeAction
unfolding normalize_sender unsub_from_stored equals
latest_unsub sender [] = none
latest_unsub sender (row ∷ rows) =
    let later = latest_unsub sender rows in
    if equals (normalize_sender row.from_addr) sender
    then elim (unsub_from_stored row.list_unsubscribe) [ some action ↦ some action | none ↦ later ]
    else later

-- A `bucket`, with its key.
pub record Bucket : Type 0 where
  pub sender : Text
  pub frequency : ℕ
  pub positive : ℕ
  pub waste : ℕ
  pub classified : ℕ
  pub last_at : ℕ
  pub subjects : List Text

-- The counts of a label: `classified`, `positive` and `waste`.
unfoldable pub count_label : Option Classification → Bucket → Bucket
unfolding is_positive is_waste
count_label none b = b
count_label (some c) b = record b {
  classified = b.classified + 1;
  positive = b.positive + (if is_positive c.label then 1 else 0);
  waste = b.waste + (if is_positive c.label then 0 else if is_waste c.label then 1 else 0);
}

-- The body of the loop, for the row's bucket.
unfoldable pub count_row : List Classification → Email → Bucket → Bucket
unfolding count_label sanitize_subject
count_row classifications row b =
    count_label (find_classification row.id classifications) (record b {
      frequency = b.frequency + 1;
      last_at = if ltb b.last_at row.internal_date then row.internal_date else b.last_at;
      subjects =
          if ltb (length b.subjects) subject_sample_count
          then b.subjects ++ sanitize_subject row.subject ∷ []
          else b.subjects;
    })

-- The default of `setdefault`.
unfoldable pub new_bucket : Text → Email → Bucket
new_bucket sender row = record {
  sender = sender;
  frequency = 0;
  positive = 0;
  waste = 0;
  classified = 0;
  last_at = row.internal_date;
  subjects = [];
}

unfoldable pub add_row : List Classification → Text → Email → List Bucket → List Bucket
unfolding count_row new_bucket equals
add_row classifications sender row [] = count_row classifications row (new_bucket sender row) ∷ []
add_row classifications sender row (b ∷ buckets) =
    let rest = add_row classifications sender row buckets in
    if equals b.sender sender then count_row classifications row b ∷ buckets else b ∷ rest

-- The loop over the rows.
unfoldable pub group_rows : List Classification → List Email → List Bucket → List Bucket
unfolding add_row normalize_sender
group_rows classifications [] buckets = buckets
group_rows classifications (row ∷ rows) buckets =
    group_rows classifications rows
      (add_row classifications (normalize_sender row.from_addr) row buckets)

-- The nearest of the quotients, or the even one of two.
unfoldable pub round_half_even : ℕ → ℕ → ℕ
round_half_even a b =
    let quotient = a / b in
    let twice = 2 * (a % b) in
    if ltb twice b || (twice == b && (quotient % 2 == 0)) then quotient else quotient + 1

-- `_quantize(Decimal(count) / Decimal(total))`, and 0 for a total of 0.
unfoldable pub ratio : ℕ → ℕ → ℕ
unfolding round_half_even
ratio count total = if total == 0 then 0 else min (round_half_even (count * 1000) total) 1000

unfoldable pub to_stats : List Email → Bucket → SenderStats
unfolding domain_of ratio latest_unsub
to_stats rows b = record {
  sender_email = b.sender;
  sender_domain = domain_of b.sender;
  frequency_30d = b.frequency;
  positive_count = b.positive;
  waste_count = b.waste;
  classified_total = b.classified;
  engagement_score = ratio b.positive b.classified;
  waste_rate = ratio b.waste b.classified;
  list_unsubscribe = latest_unsub b.sender rows;
  last_email_at = b.last_at;
  recent_subjects = b.subjects;
}

-- `a <= b` of Python's texts
unfoldable pub text_le : Text → Text → Bool
text_le [] ds = true
text_le (c ∷ cs) [] = false
text_le (c ∷ cs) (d ∷ ds) = ltb c d || (c == d && text_le cs ds)

unfoldable pub insert_stats : SenderStats → List SenderStats → List SenderStats
unfolding text_le
insert_stats s [] = s ∷ []
insert_stats s (t ∷ ts) =
    let rest = insert_stats s ts in
    if text_le s.sender_email t.sender_email then s ∷ t ∷ ts else t ∷ rest

-- `stats.sort(key=lambda s: s.sender_email)`
unfoldable pub sort_stats : List SenderStats → List SenderStats
unfolding insert_stats
sort_stats [] = []
sort_stats (s ∷ ss) = insert_stats s (sort_stats ss)

unfoldable pub aggregate_sender_stats :
    (String → String → Bool) → String → ℕ → List Email → List Classification → List SenderStats
unfolding email_window order_rows group_rows to_stats sort_stats
aggregate_sender_stats collate account_id now emails classifications =
    let rows = order_rows collate (email_window account_id now emails) in
    sort_stats (map (to_stats rows) (group_rows classifications rows []))

abbrev pub one_if : Bool → ℕ
one_if true = 1
one_if false = 0

unfoldable pub score_sender : SenderStats → CriteriaScore
score_sender stats =
    let noisy = leb volume_threshold stats.frequency_30d in
    let low_value = leb waste_threshold stats.waste_rate in
    let disengaged =
      ltb 0 stats.classified_total && leb stats.engagement_score engagement_ceiling in
    record {
      noisy = noisy;
      low_value = low_value;
      disengaged = disengaged;
      hit_count = one_if noisy + (one_if low_value + one_if disengaged);
    }
