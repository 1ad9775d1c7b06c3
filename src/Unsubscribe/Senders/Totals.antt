-- ===== src/Unsubscribe/Senders/Totals.antt =====
-- `aggregate_sender_stats` of backend/app/services/unsubscribe/aggregator.py against the rows of its
-- window.
use mathlib.Core.Option
use native.Mathlib.Nat.{zero-add}
use briefed.Base.{
  ℕ, max, ◌≡◌, refl, sym, ap, ◌∙◌, subst, String, List, [], ◌∷◌, Bool, true, Option, none, some,
  map, filter, take, length, if◌then◌else◌, arith,
}
use briefed.Tables.{Email, Classification}
use briefed.Rubric.Texts.{Text, equals}
use briefed.Unsubscribe.Header.Parsed.{equals→eq}
use briefed.Unsubscribe.Senders
use briefed.Unsubscribe.Senders.{
  SenderStats, Bucket, is_positive, is_waste, sanitize_subject, subject_sample_count, new_bucket,
  group_rows, ratio, to_stats, latest_unsub, domain_of, text_le, insert_stats, sort_stats,
  insert_row, order_rows, email_window, aggregate_sender_stats,
}
use briefed.Unsubscribe.Senders.Groups.{
  rows_of, find_bucket, labelled, newest, has_label, summary, group_rows-summary,
}

abbrev pub find_sender : Text → List SenderStats → Option SenderStats
find_sender s [] = none
find_sender s (t ∷ ts) = if equals t.sender_email s then some t else find_sender s ts

find_sender-map :
    (rows : List Email) (s : Text) (buckets : List Bucket)
    → find_sender s (map (to_stats rows) buckets)
      ≡ Option.map (to_stats rows) (find_bucket s buckets)
unfolding to_stats
find_sender-map rows s [] = refl
find_sender-map rows s (b ∷ buckets) = ground (arith, find_sender-map rows s buckets)

text_le_refl : (cs : Text) → text_le cs cs ≡ true
unfolding text_le
text_le_refl [] = refl
text_le_refl (c ∷ cs) = ground (arith, text_le_refl cs)

find_sender-insert_stats :
    (s : Text) (t : SenderStats) (ts : List SenderStats)
    → find_sender s (insert_stats t ts) ≡ find_sender s (t ∷ ts)
unfolding insert_stats
find_sender-insert_stats s t [] = refl
find_sender-insert_stats s t (u ∷ ts) = ground (
  arith,
  find_sender-insert_stats s t ts,
  equals→eq t.sender_email s,
  equals→eq u.sender_email s,
  text_le_refl s,
)

find_sender-sort_stats :
    (s : Text) (ts : List SenderStats) → find_sender s (sort_stats ts) ≡ find_sender s ts
unfolding sort_stats
find_sender-sort_stats s [] = refl
find_sender-sort_stats s (t ∷ ts) =
    find_sender-insert_stats s t (sort_stats ts) ∙ ground (arith, find_sender-sort_stats s ts)

module _ (collate : String → String → Bool) (p q : Email → Bool) where
  -- The order changes no count.
  length-insert_row :
      (row : Email) (es : List Email)
      → length (filter q (filter p (insert_row collate row es)))
        ≡ length (filter q (filter p (row ∷ es)))
  unfolding insert_row
  length-insert_row row [] = refl
  length-insert_row row (e ∷ es) = ground (arith, length-insert_row row es)

  length-order_rows :
      (es : List Email)
      → length (filter q (filter p (order_rows collate es))) ≡ length (filter q (filter p es))
  unfolding order_rows
  length-order_rows [] = refl
  length-order_rows (e ∷ es) =
      length-insert_row e (order_rows collate es) ∙ ground (arith, length-order_rows es)

filter-true : (es : List Email) → filter (λ (e : Email). true) es ≡ es
filter-true [] = refl
filter-true (e ∷ es) = ground (arith, filter-true es)

-- What a sender's statistics are, of the window as a set of rows and of the rows in their order.
pub record IsAggregate (classifications : List Classification) (window rows : List Email) (s : Text)
    (t : SenderStats) : Type 0 where
  pub email : t.sender_email ≡ s
  pub domain : t.sender_domain ≡ domain_of s
  pub frequency : t.frequency_30d ≡ length (rows_of s window)
  pub positive : t.positive_count ≡ labelled classifications is_positive (rows_of s window)
  pub waste : t.waste_count ≡ labelled classifications is_waste (rows_of s window)
  pub classified : t.classified_total ≡ labelled classifications (λ label. true) (rows_of s window)
  pub engagement : t.engagement_score ≡ ratio t.positive_count t.classified_total
  pub wasted : t.waste_rate ≡ ratio t.waste_count t.classified_total
  pub action : t.list_unsubscribe ≡ latest_unsub s rows
  pub last : t.last_email_at ≡ newest classifications 0 (rows_of s rows)
  pub subjects :
      t.recent_subjects
      ≡ take subject_sample_count (map (λ (r : Email). sanitize_subject r.subject) (rows_of s rows))

abbrev pub HasStats :
    List Classification → List Email → List Email → Text → Option SenderStats → Type 0
HasStats classifications window rows s none = rows_of s window ≡ []
HasStats classifications window rows s (some t) = IsAggregate classifications window rows s t

max-zero : (d : ℕ) → max d d ≡ max 0 d
max-zero d = omega arith

empty-of-length : (xs : List Email) → length xs ≡ 0 → xs ≡ []
empty-of-length [] h = refl
empty-of-length (x ∷ xs) h = absurd (omega arith)

module _ (collate : String → String → Bool) (classifications : List Classification)
    (window : List Email) (s : Text) where
  abbrev rows : List Email
  rows = order_rows collate window

  abbrev mine : Email → Bool
  mine = λ (row : Email). equals (Senders.normalize_sender row.from_addr) s

  length-rows : length (rows_of s rows) ≡ length (rows_of s window)
  length-rows =
      ap length (sym (filter-true (rows_of s rows)))
      ∙ length-order_rows collate mine (λ e. true) window
      ∙ ap length (filter-true (rows_of s window))

  labelled-rows :
      (p : String → Bool)
      → labelled classifications p (rows_of s rows) ≡ labelled classifications p (rows_of s window)
  labelled-rows p = length-order_rows collate mine (has_label classifications p) window

  summary-HasStats :
      (listed : List Email)
      → rows_of s rows ≡ listed
      → HasStats classifications window rows s
          (Option.map (to_stats rows) (summary classifications s listed))
  unfolding to_stats
  summary-HasStats [] e =
      empty-of-length (rows_of s window) (omega (arith, length-rows, ap length e))
  summary-HasStats (row ∷ listed) e =
      unfold new_bucket in
      record {
        email = refl;
        domain = refl;
        frequency = zero-add _ ∙ sym (ap length e) ∙ length-rows;
        positive =
            zero-add _
            ∙ sym (ap (labelled classifications is_positive) e)
            ∙ labelled-rows is_positive;
        waste =
            zero-add _ ∙ sym (ap (labelled classifications is_waste) e) ∙ labelled-rows is_waste;
        classified =
            zero-add _
            ∙ sym (ap (labelled classifications (λ label. true)) e)
            ∙ labelled-rows (λ label. true);
        engagement = refl;
        wasted = refl;
        action = refl;
        last =
            ap (λ d. newest classifications d listed) (max-zero row.internal_date)
            ∙ sym (ap (newest classifications 0) e);
        subjects = sym (
            ap
              (λ rs. take subject_sample_count (map (λ (r : Email). sanitize_subject r.subject) rs))
              e);
      }

-- For every sender, the statistics of an account hold an entry exactly where the window has a row of
-- that sender, whose address is compared trimmed and in lower case. The counts of the entry are those
-- of the sender's rows in the window, and its ratios those of its counts; its last date, its header
-- and its first six subjects are those of the sender's rows in the order of the query.
pub aggregate_sender_stats-HasStats :
    (collate : String → String → Bool) (account_id : String) (now : ℕ) (emails : List Email)
    (classifications : List Classification) (s : Text)
    → HasStats classifications
        (email_window account_id now emails)
        (order_rows collate (email_window account_id now emails))
        s
        (find_sender s (aggregate_sender_stats collate account_id now emails classifications))
unfolding aggregate_sender_stats
aggregate_sender_stats-HasStats collate account_id now emails classifications s =
    let window = email_window account_id now emails in
    let ordered = order_rows collate window in
    let buckets = group_rows classifications ordered [] in
    let found =
      find_sender-sort_stats s (map (to_stats ordered) buckets)
      ∙ find_sender-map ordered s buckets
      ∙ ap (Option.map (to_stats ordered)) (group_rows-summary classifications s ordered) in
    subst (HasStats classifications window ordered s) (sym found)
      (summary-HasStats collate classifications window s (rows_of s ordered) refl)
