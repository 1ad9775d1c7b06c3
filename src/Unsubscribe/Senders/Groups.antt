-- ===== src/Unsubscribe/Senders/Groups.antt =====
-- The buckets of `aggregate_sender_stats` of backend/app/services/unsubscribe/aggregator.py: the bucket
-- of a sender sums up the rows of that sender.
use briefed.Base.{
  ℕ, ◌+◌, ◌≤◌, max, ◌≡◌, refl, sym, subst, ap, ◌∙◌, String, List, [], ◌∷◌, ◌++◌, append_assoc,
  append-nil, Bool, true, false, Option, none, some, map, filter, take, length, ltb, str_eq,
  if◌then◌else◌, arith, eq_iff, Bool-cases, Option-cases, inl, inr, length-append, length-take-le,
  take-append, take-all, take-take_append,
}
use mathlib.Core.Path.{ap₂}
use briefed.Tables.{Email, Classification}
use briefed.Rubric.Texts.{Text, equals}
use briefed.Classify.Types.{find_classification}
use briefed.Unsubscribe.Header.Parsed.{equals→eq, equals_refl}
use briefed.Unsubscribe.Senders.{
  Bucket, is_positive, is_waste, normalize_sender, sanitize_subject, subject_sample_count,
  count_label, count_row, new_bucket, add_row, group_rows,
}

-- The rows of a sender, in their order.
abbrev pub rows_of : Text → List Email → List Email
rows_of s = filter (λ (row : Email). equals (normalize_sender row.from_addr) s)

abbrev pub find_bucket : Text → List Bucket → Option Bucket
find_bucket s [] = none
find_bucket s (b ∷ buckets) = if equals b.sender s then some b else find_bucket s buckets

abbrev or_new : Option Bucket → Text → Email → Bucket
or_new none s row = new_bucket s row
or_new (some b) s row = b

module _ (classifications : List Classification) where
  count_row-sender :
      (row : Email) (b : Bucket) → (count_row classifications row b).sender ≡ b.sender
  unfolding count_row count_label
  count_row-sender row b = elim (Option-cases (find_classification row.id classifications)) [
    | inl e ↦ ground arith
    | inr (c, e) ↦ ground arith
  ]

  find_bucket-add_row :
      (sender : Text) (row : Email) (s : Text) (buckets : List Bucket)
      → find_bucket s (add_row classifications sender row buckets) ≡ (
          if equals sender s
          then some (count_row classifications row (or_new (find_bucket sender buckets) sender row))
          else find_bucket s buckets)
  unfolding add_row
  find_bucket-add_row sender row s [] =
      let new : (count_row classifications row (new_bucket sender row)).sender ≡ sender =
        count_row-sender row (new_bucket sender row) ∙ unfold new_bucket in refl in
      ground arith
  find_bucket-add_row sender row s (b ∷ buckets) = elim (Bool-cases (equals b.sender sender)) [
    | inl same ↦ ground (arith, equals→eq b.sender sender same, count_row-sender row b)
    | inr other ↦ ground (
      arith,
      find_bucket-add_row sender row s buckets,
      equals→eq b.sender s,
      equals→eq sender s,
      equals_refl s,
    )
  ]

  add_all : Text → List Email → Option Bucket → Option Bucket
  add_all s [] o = o
  add_all s (row ∷ rows) o = add_all s rows (some (count_row classifications row (or_new o s row)))

  find_bucket-group_rows :
      (s : Text) (rows : List Email) (buckets : List Bucket)
      → find_bucket s (group_rows classifications rows buckets)
        ≡ add_all s (rows_of s rows) (find_bucket s buckets)
  unfolding group_rows add_all
  find_bucket-group_rows s [] buckets = refl
  find_bucket-group_rows s (row ∷ rows) buckets =
      let sender = normalize_sender row.from_addr in
      let ih = find_bucket-group_rows s rows (add_row classifications sender row buckets) in
      let placed = find_bucket-add_row sender row s buckets in
      elim (Bool-cases (equals sender s)) [
        | inl mine ↦ let e = equals→eq sender s mine in ground (arith, ih, placed)
        | inr other ↦ ground (arith, ih, placed)
      ]

  -- Whether a row has a classification with such a label.
  abbrev pub has_label : (String → Bool) → Email → Bool
  has_label p row = elim (find_classification row.id classifications) [
    | none ↦ false
    | some c ↦ p c.label
  ]

  abbrev pub labelled : (String → Bool) → List Email → ℕ
  labelled p rows = length (filter (has_label p) rows)

  abbrev pub newest : ℕ → List Email → ℕ
  newest date [] = date
  newest date (row ∷ rows) = newest (max date row.internal_date) rows

  -- A bucket after more rows, which keeps six subjects.
  abbrev pub totals : List Email → Bucket → Bucket
  totals rows b = record {
    sender = b.sender;
    frequency = b.frequency + length rows;
    positive = b.positive + labelled is_positive rows;
    waste = b.waste + labelled is_waste rows;
    classified = b.classified + labelled (λ label. true) rows;
    last_at = newest b.last_at rows;
    subjects =
        take subject_sample_count
          (b.subjects ++ map (λ (r : Email). sanitize_subject r.subject) rows);
  }

  positive-not-waste : (label : String) → is_positive label ≡ true → is_waste label ≡ false
  unfolding is_positive is_waste
  positive-not-waste label h = elim (Bool-cases (str_eq label "must_read")) [
    | inl e ↦ subst (λ l. is_waste l ≡ false) (sym ((eq_iff label "must_read").0 e)) refl
    | inr other ↦
        let good : str_eq label "good_to_read" ≡ true = ground arith in
        subst (λ l. is_waste l ≡ false) (sym ((eq_iff label "good_to_read").0 good)) refl
  ]

  count_label-parts :
      (row : Email) (b : Bucket)
      → count_label (find_classification row.id classifications) b ≡ record b {
        positive = b.positive + labelled is_positive (row ∷ []);
        waste = b.waste + labelled is_waste (row ∷ []);
        classified = b.classified + labelled (λ label. true) (row ∷ []);
      }
  unfolding count_label
  count_label-parts row b = elim (Option-cases (find_classification row.id classifications)) [
    | inl e ↦ ground arith
    | inr (c, e) ↦ ground (arith, positive-not-waste c.label)
  ]

  length-cons :
      (p : Email → Bool) (row : Email) (rows : List Email)
      → length (filter p (row ∷ rows)) ≡ length (filter p (row ∷ [])) + length (filter p rows)
  length-cons p row rows = ground arith

  max-if : (a b : ℕ) → (if ltb a b then b else a) ≡ max a b
  max-if a b = ground arith

  -- Six subjects at most are the first six.
  subjects-take :
      (xs : List Text) (y : Text)
      → length xs ≤ subject_sample_count
      → (if ltb (length xs) subject_sample_count then xs ++ y ∷ [] else xs)
        ≡ take subject_sample_count (xs ++ y ∷ [])
  subjects-take xs y few = elim (Bool-cases (ltb (length xs) subject_sample_count)) [
    | inl room ↦
        let short : length (xs ++ y ∷ []) ≤ subject_sample_count =
          ground (arith, length-append xs (y ∷ [])) in
        rw room (sym (take-all subject_sample_count (xs ++ y ∷ []) short))
    | inr full ↦
        let six : length xs ≡ subject_sample_count = ground arith in
        rw full (subst (λ n. xs ≡ take n (xs ++ y ∷ [])) six (sym (take-append xs (y ∷ []))))
  ]

  count_row-totals :
      (row : Email) (b : Bucket)
      → length b.subjects ≤ subject_sample_count
      → count_row classifications row b ≡ totals (row ∷ []) b
  unfolding count_row
  count_row-totals row b few =
      let y = sanitize_subject row.subject in
      let seen : Bucket = record b {
        frequency = b.frequency + 1;
        last_at = if ltb b.last_at row.internal_date then row.internal_date else b.last_at;
        subjects =
            if ltb (length b.subjects) subject_sample_count
            then b.subjects ++ y ∷ []
            else b.subjects;
      } in
      count_label-parts row seen
      ∙ ap₂
          (λ date subjects. record seen {
            positive = b.positive + labelled is_positive (row ∷ []);
            waste = b.waste + labelled is_waste (row ∷ []);
            classified = b.classified + labelled (λ label. true) (row ∷ []);
            last_at = date;
            subjects = subjects;
          })
          (max-if b.last_at row.internal_date) (subjects-take b.subjects y few)

  totals-cons :
      (row : Email) (rows : List Email) (b : Bucket)
      → totals rows (totals (row ∷ []) b) ≡ totals (row ∷ rows) b
  totals-cons row rows b =
      let y = sanitize_subject row.subject in
      let ys = map (λ (r : Email). sanitize_subject r.subject) rows in
      ground (
        arith,
        length-cons (has_label is_positive) row rows,
        length-cons (has_label is_waste) row rows,
        length-cons (has_label (λ label. true)) row rows,
        take-take_append subject_sample_count (b.subjects ++ y ∷ []) ys,
        append_assoc b.subjects (y ∷ []) ys,
      )

  totals-nil : (b : Bucket) → length b.subjects ≤ subject_sample_count → totals [] b ≡ b
  totals-nil b few =
      ground (arith, append-nil b.subjects, take-all subject_sample_count b.subjects few)

  add_all-totals :
      (s : Text) (rows : List Email) (b : Bucket)
      → length b.subjects ≤ subject_sample_count
      → add_all s rows (some b) ≡ some (totals rows b)
  unfolding add_all
  add_all-totals s [] b few = ap some (sym (totals-nil b few))
  add_all-totals s (row ∷ rows) b few =
      let step = count_row-totals row b few in
      let y = sanitize_subject row.subject in
      let six = length-take-le subject_sample_count (b.subjects ++ y ∷ []) in
      ap (λ c. add_all s rows (some c)) step
      ∙ add_all-totals s rows (totals (row ∷ []) b) six
      ∙ ap some (totals-cons row rows b)

  -- The sum of a sender's rows; `none` for no rows.
  abbrev pub summary : Text → List Email → Option Bucket
  summary s [] = none
  summary s (row ∷ rows) = some (totals (row ∷ rows) (new_bucket s row))

  add_all-summary : (s : Text) (rows : List Email) → add_all s rows none ≡ summary s rows
  unfolding add_all
  add_all-summary s [] = refl
  add_all-summary s (row ∷ rows) =
      add_all-totals s (row ∷ rows) (new_bucket s row) (unfold new_bucket in omega arith)

  pub group_rows-summary :
      (s : Text) (rows : List Email)
      → find_bucket s (group_rows classifications rows []) ≡ summary s (rows_of s rows)
  group_rows-summary s rows = find_bucket-group_rows s rows [] ∙ add_all-summary s (rows_of s rows)
