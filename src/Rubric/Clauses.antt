-- ===== src/Rubric/Clauses.antt =====
-- `_match_predicate` and the clause checks of backend/app/services/classification/rubric.py.
use briefed.Base.{
  ℕ, String, List, [], ◌∷◌, ◌++◌, Bool, true, false, not, ◌&&◌, ◌||◌, Option, none, some, any,
  is_some, str_eq, ◌==◌, if◌then◌else◌,
}
use briefed.Base.Dict.{Dict}
use briefed.Mail.{EmailMessage}
use briefed.Schedule.Slot.{codes}
use briefed.Rubric.Texts.{lower, equals, ends_with, contains, needle_of, is_empty}

-- A JSON value of a rule: a leaf, a list, or an object, of leaves.
pub data Leaf : Type 0 where
  null : Leaf
  flag : Bool → Leaf
  number : ℕ → Leaf
  text : String → Leaf

pub data Value : Type 0 where
  leaf : Leaf → Value
  leaves : List Leaf → Value
  fields : Dict Leaf → Value

-- What the engine asks of Python: `str` of a number, a list or an object, `re.compile` and `search`,
-- where a bad pattern is `none`, and `float`.
pub record Python : Type 0 where
  pub str_of_number : ℕ → String
  pub str_of_leaves : List Leaf → String
  pub str_of_fields : Dict Leaf → String
  pub search : String → String → Option Bool
  pub float : Leaf → Option ℕ

-- `bool(value)`
unfoldable pub leaf_truth : Leaf → Bool
leaf_truth null = false
leaf_truth (flag b) = b
leaf_truth (number n) = not (n == 0)
leaf_truth (text s) = not (str_eq s "")

unfoldable pub truth : Value → Bool
unfolding leaf_truth
truth (leaf l) = leaf_truth l
truth (leaves ls) = not (is_empty ls)
truth (fields fs) = not (is_empty fs)

module _ (python : Python) where
  -- `str(value)`
  unfoldable pub leaf_str : Leaf → String
  leaf_str null = "None"
  leaf_str (flag b) = if b then "True" else "False"
  leaf_str (number n) = python.str_of_number n
  leaf_str (text s) = s

  unfoldable pub str : Value → String
  unfolding leaf_str
  str (leaf l) = leaf_str l
  str (leaves ls) = python.str_of_leaves ls
  str (fields fs) = python.str_of_fields fs

  module _ (email : EmailMessage) where
    unfoldable pub check_from_domain : Value → Bool
    unfolding str lower contains ends_with equals
    check_from_domain value =
        let domain = lower (codes (str value)) in
        let sender = lower (codes email.from_email) in
        if not (contains (codes "@") sender)
        then false
        else if ends_with (codes "@" ++ domain) sender || ends_with (codes "." ++ domain) sender
        then true
        else equals sender domain

    unfoldable pub check_from_email : Value → Bool
    unfolding str lower equals
    check_from_email value = equals (lower (codes email.from_email)) (lower (codes (str value)))

    unfoldable pub check_subject_contains : Value → Bool
    unfolding str lower needle_of contains
    check_subject_contains value =
        let needle = needle_of (str value) in
        if is_empty needle then false else contains needle (lower (codes email.subject))

    unfoldable pub check_subject_regex : Value → Bool
    unfolding str
    check_subject_regex value = elim (python.search (str value) email.subject) [
      | none ↦ false
      | some found ↦ found
    ]

    -- One item of the loop of `_check_topic_keyword`.
    unfoldable pub has_keyword : String → Bool
    unfolding lower needle_of contains
    has_keyword item =
        let needle = needle_of item in
        not (is_empty needle)
        && contains needle (lower (codes email.subject ++ 10 ∷ codes email.snippet))

    unfoldable pub check_topic_keyword : Value → Bool
    unfolding str leaf_str has_keyword
    check_topic_keyword (leaves items) = any (λ l. has_keyword (leaf_str l)) items
    check_topic_keyword (leaf l) = has_keyword (leaf_str l)
    check_topic_keyword (fields fs) = has_keyword (python.str_of_fields fs)

    unfoldable pub check_has_label : Value → Bool
    unfolding str
    check_has_label value = any (str_eq (str value)) email.labels

    unfoldable pub check_list_unsubscribe_present : Value → Bool
    unfolding truth
    check_list_unsubscribe_present value =
        if truth value then is_some email.list_unsubscribe else not (is_some email.list_unsubscribe)

    -- One header of the loop of `_check_header_equals`.
    unfoldable pub check_header : String → Leaf → Bool
    unfolding leaf_truth leaf_str lower equals
    check_header header_name expected =
        let name = lower (codes header_name) in
        if equals name (codes "list-unsubscribe")
        then (if leaf_truth expected
            then is_some email.list_unsubscribe
            else not (is_some email.list_unsubscribe))
        else if equals name (codes "precedence")
            && equals (lower (codes (leaf_str expected))) (codes "bulk")
        then any (str_eq "LIST") email.labels || any (str_eq "Precedence:bulk") email.labels
        else false

    unfoldable pub check_headers : Dict Leaf → Bool
    unfolding check_header
    check_headers [] = true
    check_headers ((name, expected) ∷ headers) = check_header name expected && check_headers headers

    unfoldable pub check_header_equals : Value → Bool
    unfolding check_headers
    check_header_equals (fields headers) = check_headers headers
    check_header_equals (leaf l) = false
    check_header_equals (leaves ls) = false

    unfoldable pub check_clause : String → Value → Bool
    check_clause key value =
        if str_eq key "from_domain"
        then check_from_domain value
        else if str_eq key "from_email"
        then check_from_email value
        else if str_eq key "subject_contains"
        then check_subject_contains value
        else if str_eq key "subject_regex"
        then check_subject_regex value
        else if str_eq key "topic_keyword"
        then check_topic_keyword value
        else if str_eq key "has_label"
        then check_has_label value
        else if str_eq key "list_unsubscribe_present"
        then check_list_unsubscribe_present value
        else if str_eq key "header_equals"
        then check_header_equals value
        else false

    unfoldable pub all_clauses : Dict Value → Bool
    unfolding check_clause
    all_clauses [] = true
    all_clauses ((key, value) ∷ clauses) = check_clause key value && all_clauses clauses

    unfoldable pub match_predicate : Dict Value → Bool
    match_predicate [] = false
    match_predicate (clause ∷ clauses) = all_clauses (clause ∷ clauses)
