-- ===== src/Unsubscribe/Header/Printed.antt =====
-- A `List-Unsubscribe` header printed from an action is read back by the parser of
-- backend/app/services/unsubscribe/parser.py.
use mathlib.Core.List.{reverse, reverse-cons}
use briefed.Base.{
  take-all, inl, inr, subst, ℕ, ◌≤◌, ◌≡◌, refl, sym, ap, ◌∙◌, List, [], ◌∷◌, ◌++◌, append_assoc,
  append-nil, Bool, true, false, not, ◌&&◌, ◌||◌, Option, none, some, map, filter, take, length,
  ◌==◌, arith, All, filter-All, filter-append, Option-cases, is_some,
}
use briefed.Schedule.Slot.{is_space, strip, strip_left}
use briefed.Rubric.Texts.{Text, lower, is_empty}
use briefed.Unsubscribe.Header.{
  UnsubscribeAction, max_entries, brackets, remove_spaces, next_segment, closed_segment, dedupe,
  extract_entries, no_targets, take_entries, to_action, is_one_click, parse_list_unsubscribe,
  has_any_action, scheme_of,
}
use briefed.Unsubscribe.Header.Parsed.{
  NewKeys, is_url, is_mail, first_mail, take_entries-filter, mailto-not-http,
}

-- The targets of an action, in the order in which they are printed.
abbrev mail_list : Option Text → List Text
mail_list none = []
mail_list (some m) = m ∷ []

abbrev pub targets : UnsubscribeAction → List Text
targets a = a.http_urls ++ mail_list a.mailto

abbrev print_rest : List Text → Text
print_rest [] = []
print_rest (e ∷ es) = b',' ∷ b' ' ∷ b'<' ∷ (e ++ b'>' ∷ print_rest es)

-- `<url>, <url>, <mailto:...>`
abbrev pub print_targets : List Text → Text
print_targets [] = []
print_targets (e ∷ es) = b'<' ∷ (e ++ b'>' ∷ print_rest es)

abbrev is_plain : ℕ → Bool
is_plain c = not (c == b'<') && not (c == b'>') && not (is_space c)

-- A text that can stand between brackets.
abbrev pub IsPlain : Text → Type 0
IsPlain e = (is_empty e ≡ false) × All (λ c. is_plain c ≡ true) e

segment :
    (cs : Text) (a : ℕ) (seen rest : Text)
    → All (λ c. is_plain c ≡ true) cs
    → brackets (some (a ∷ seen)) (cs ++ b'>' ∷ rest)
      ≡ (reverse (a ∷ seen) ++ cs) ∷ brackets none rest
unfolding brackets next_segment closed_segment
segment [] a seen rest plain =
    ap (λ (e : Text). e ∷ brackets none rest) (sym (append-nil (reverse (a ∷ seen))))
segment (c ∷ cs) a seen rest plain =
    let ih = segment cs c (a ∷ seen) rest plain.1 in
    let shift : reverse (c ∷ a ∷ seen) ++ cs ≡ reverse (a ∷ seen) ++ c ∷ cs =
      ap (λ (e : Text). e ++ cs) (reverse-cons c (a ∷ seen))
      ∙ append_assoc (reverse (a ∷ seen)) (c ∷ []) cs in
    ground (arith, ih, shift, plain.0)

bracketed :
    (e rest : Text) → IsPlain e → brackets none (b'<' ∷ (e ++ b'>' ∷ rest)) ≡ e ∷ brackets none rest
unfolding brackets next_segment closed_segment
bracketed [] rest h = ground arith
bracketed (c ∷ cs) rest h = ground (arith, segment cs c [] rest h.1.1, h.1.0)

brackets-print_rest : (es : List Text) → All IsPlain es → brackets none (print_rest es) ≡ es
unfolding brackets next_segment closed_segment
brackets-print_rest [] h = refl
brackets-print_rest (e ∷ es) h =
    bracketed e (print_rest es) h.0 ∙ ap (λ (xs : List Text). e ∷ xs) (brackets-print_rest es h.1)

brackets-print_targets : (es : List Text) → All IsPlain es → brackets none (print_targets es) ≡ es
unfolding brackets
brackets-print_targets [] h = refl
brackets-print_targets (e ∷ es) h =
    bracketed e (print_rest es) h.0 ∙ ap (λ (xs : List Text). e ∷ xs) (brackets-print_rest es h.1)

remove_spaces-plain : (e : Text) → All (λ c. is_plain c ≡ true) e → remove_spaces e ≡ e
unfolding remove_spaces
remove_spaces-plain [] h = refl
remove_spaces-plain (c ∷ cs) h = ground (arith, remove_spaces-plain cs h.1, h.0)

map-remove_spaces : (es : List Text) → All IsPlain es → map remove_spaces es ≡ es
map-remove_spaces [] h = refl
map-remove_spaces (e ∷ es) h = ground (arith, remove_spaces-plain e h.0.1, map-remove_spaces es h.1)

dedupe-new : (es seen : List Text) → NewKeys seen es → dedupe seen es ≡ es
unfolding dedupe
dedupe-new [] seen h = refl
dedupe-new (e ∷ es) seen h =
    rw h.0 (ap (λ (xs : List Text). e ∷ xs) (dedupe-new es (lower e ∷ seen) h.1))

extract_entries-found :
    (header e : Text) (es : List Text)
    → map remove_spaces (brackets none header) ≡ e ∷ es
    → extract_entries header ≡ dedupe [] (e ∷ es)
unfolding extract_entries
extract_entries-found header e es h = ground arith

extract_entries-print_targets :
    (e : Text) (es : List Text)
    → All IsPlain (e ∷ es)
    → NewKeys [] (e ∷ es)
    → extract_entries (print_targets (e ∷ es)) ≡ e ∷ es
extract_entries-print_targets e es plain new =
    let found =
      ap (map remove_spaces) (brackets-print_targets (e ∷ es) plain)
      ∙ map-remove_spaces (e ∷ es) plain in
    extract_entries-found (print_targets (e ∷ es)) e es found ∙ dedupe-new (e ∷ es) [] new

is_empty-append : (xs : Text) (c : ℕ) → is_empty (xs ++ c ∷ []) ≡ false
is_empty-append [] c = refl
is_empty-append (x ∷ xs) c = refl

is_empty-reverse : (xs : Text) → is_empty (reverse xs) ≡ is_empty xs
is_empty-reverse [] = refl
is_empty-reverse (x ∷ xs) = ap is_empty (reverse-cons x xs) ∙ is_empty-append (reverse xs) x

strip_left-append :
    (xs : Text) (c : ℕ) → is_space c ≡ false → is_empty (strip_left (xs ++ c ∷ [])) ≡ false
unfolding strip_left
strip_left-append [] c h = ground arith
strip_left-append (x ∷ xs) c h = ground (arith, strip_left-append xs c h)

strip-filled : (c : ℕ) (cs : Text) → is_space c ≡ false → is_empty (strip (c ∷ cs)) ≡ false
unfolding strip
strip-filled c cs h =
    let kept : strip_left (c ∷ cs) ≡ c ∷ cs = unfold strip_left in ground arith in
    is_empty-reverse (strip_left (reverse (strip_left (c ∷ cs))))
    ∙ ap (λ (t : Text). is_empty (strip_left (reverse t))) kept
    ∙ ap (λ (t : Text). is_empty (strip_left t)) (reverse-cons c cs)
    ∙ strip_left-append (reverse cs) c h

-- An action whose targets can be printed: at most sixteen URLs, and targets that differ in more than
-- case.
pub record IsPrintable (a : UnsubscribeAction) : Type 0 where
  pub urls : All (λ u. is_url u ≡ true) a.http_urls
  pub mail : All (λ u. is_mail u ≡ true) (mail_list a.mailto)
  pub plain : All IsPlain (targets a)
  pub differ : NewKeys [] (targets a)
  pub few : length a.http_urls ≤ max_entries
  pub acts : has_any_action a ≡ true

mail-not-url : (e : Text) → is_mail e ≡ true → is_url e ≡ false
mail-not-url e h = elim (Option-cases (scheme_of e)) [
  | inl no_scheme ↦ ground arith
  | inr (s, scheme) ↦ ground (arith, mailto-not-http s)
]

filter-mail_list :
    (m : Option Text) → All (λ u. is_mail u ≡ true) (mail_list m) → filter is_url (mail_list m) ≡ []
filter-mail_list none h = refl
filter-mail_list (some e) h = ground (arith, mail-not-url e h.0)

first_mail-targets :
    (urls : List Text) (m : Option Text)
    → All (λ u. is_url u ≡ true) urls
    → All (λ u. is_mail u ≡ true) (mail_list m)
    → first_mail (urls ++ mail_list m) ≡ m
first_mail-targets [] none hu hm = refl
first_mail-targets [] (some e) hu hm = ground arith
first_mail-targets (u ∷ urls) m hu hm =
    ground (arith, first_mail-targets urls m hu.1 hm, mail-not-url u)

filter-targets :
    (urls : List Text) (m : Option Text)
    → All (λ u. is_url u ≡ true) urls
    → All (λ u. is_mail u ≡ true) (mail_list m)
    → filter is_url (urls ++ mail_list m) ≡ urls
filter-targets urls m hu hm = ground (
  arith,
  filter-append is_url urls (mail_list m),
  filter-All is_url urls hu,
  filter-mail_list m hm,
  append-nil urls,
)

parse_entries :
    (header : Text) (post_header : Option Text) (e : Text) (es : List Text)
    → is_empty (strip header) ≡ false
    → extract_entries header ≡ e ∷ es
    → NewKeys [] (e ∷ es)
    → parse_list_unsubscribe (some header) post_header
      ≡ to_action post_header
          (record { http_urls = filter is_url (e ∷ es); mailto = first_mail (e ∷ es) })
unfolding parse_list_unsubscribe
parse_entries header post_header e es filled found new =
    let loop = take_entries-filter (e ∷ es) [] no_targets new (λ key h. refl) in
    ground (
      arith,
      filled,
      ap (λ (xs : List Text). to_action post_header (take_entries xs no_targets)) found,
      loop,
    )

to_action-acts :
    (a : UnsubscribeAction) (post_header : Option Text)
    → has_any_action a ≡ true
    → to_action post_header (record { http_urls = a.http_urls; mailto = a.mailto })
      ≡ some (record a {
        http_urls = take max_entries a.http_urls;
        one_click = is_one_click post_header;
      })
unfolding to_action has_any_action
to_action-acts a post_header acts = ground arith

targets-filled :
    (a : UnsubscribeAction)
    → has_any_action a ≡ true
    → (e : Text) × (es : List Text) × (targets a ≡ e ∷ es)
unfolding has_any_action
targets-filled a acts = first_of_targets a.http_urls a.mailto acts
  where
    first_of_targets :
        (urls : List Text) (m : Option Text)
        → (not (is_empty urls) || is_some m) ≡ true
        → (e : Text) × (es : List Text) × (urls ++ mail_list m ≡ e ∷ es)
    first_of_targets [] none h = absurd (ground arith)
    first_of_targets [] (some m) h = (m, [], refl)
    first_of_targets (u ∷ urls) m h = (u, urls ++ mail_list m, refl)

-- The header printed from an action that can be printed is parsed to the same URLs and the same
-- `mailto:` target, with the flag of the `-Post` header.
pub parse_list_unsubscribe-print_targets :
    (a : UnsubscribeAction) (post_header : Option Text)
    → IsPrintable a
    → parse_list_unsubscribe (some (print_targets (targets a))) post_header
      ≡ some (record a { one_click = is_one_click post_header })
parse_list_unsubscribe-print_targets a post_header ok =
    let (e, es, listed) = targets-filled a ok.acts in
    let plain = subst (λ xs. All IsPlain xs) listed ok.plain in
    let new = subst (λ xs. NewKeys [] xs) listed ok.differ in
    let filled = strip-filled b'<' (e ++ b'>' ∷ print_rest es) (unfold is_space in refl) in
    let read = extract_entries-print_targets e es plain new in
    let parsed = parse_entries (print_targets (e ∷ es)) post_header e es filled read new in
    let urls = filter-targets a.http_urls a.mailto ok.urls ok.mail in
    let mail = first_mail-targets a.http_urls a.mailto ok.urls ok.mail in
    let act : UnsubscribeAction = record a { one_click = is_one_click post_header } in
    subst (λ xs. parse_list_unsubscribe (some (print_targets xs)) post_header ≡ some act)
      (sym listed)
      (ground (
        arith,
        parsed,
        ap (filter is_url) listed,
        ap first_mail listed,
        urls,
        mail,
        take-all max_entries a.http_urls ok.few,
        to_action-acts a post_header ok.acts,
      ))
