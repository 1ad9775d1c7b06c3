-- ===== src/Unsubscribe/Header/Parsed.antt =====
-- What `parse_list_unsubscribe` of backend/app/services/unsubscribe/parser.py makes of the entries of a
-- header.
use briefed.Base.{
  ℕ, ◌≡◌, refl, sym, ap, ◌∙◌, subst, ◌⊎◌, inl, inr, List, [], ◌∷◌, ◌++◌, append_assoc, append-nil,
  Bool, true, false, ◌&&◌, ◌||◌, Option, none, some, map, any, filter, take, length, leb,
  if◌then◌else◌, arith, Bool-cases, Option-cases, zero, suc,
}
use briefed.Schedule.Slot.{codes, strip}
use briefed.Rubric.Texts.{Text, lower, equals, is_empty}
use briefed.Unsubscribe.Header.{
  UnsubscribeAction, has_any_action, Targets, max_entries, max_url_len, dedupe, extract_entries,
  scheme_of, is_http, take_target, take_entry, take_entries, no_targets, to_action, is_one_click,
  parse_list_unsubscribe, brackets, remove_spaces, loose_entries,
}

pub equals→eq : (cs ds : Text) → equals cs ds ≡ true → cs ≡ ds
unfolding equals
equals→eq [] [] h = refl
equals→eq [] (d ∷ ds) h = ground arith
equals→eq (c ∷ cs) [] h = ground arith
equals→eq (c ∷ cs) (d ∷ ds) h = ground (arith, equals→eq cs ds)

pub equals_refl : (cs : Text) → equals cs cs ≡ true
unfolding equals
equals_refl [] = refl
equals_refl (c ∷ cs) = ground (arith, equals_refl cs)

-- The entries that are URLs, and those that are `mailto:` targets.
abbrev pub is_url : Text → Bool
is_url entry = elim (scheme_of entry) [
  | none ↦ false
  | some scheme ↦ is_http scheme && leb (length entry) max_url_len
]

abbrev pub is_mail : Text → Bool
is_mail entry = elim (scheme_of entry) [
  | none ↦ false
  | some scheme ↦ equals scheme (codes "mailto") && leb (length entry) max_url_len
]

abbrev pub first_mail : List Text → Option Text
first_mail [] = none
first_mail (entry ∷ entries) = if is_mail entry then some entry else first_mail entries

-- Whether a key is that of one of the texts.
abbrev pub has_key : Text → List Text → Bool
has_key key = any (λ u. equals key (lower u))

-- No text has a key that was seen or that an earlier one has: they differ in more than case.
abbrev pub NewKeys : List Text → List Text → Type 0
NewKeys seen [] = Unit {0}
NewKeys seen (u ∷ us) = (any (equals (lower u)) seen ≡ false) × NewKeys (lower u ∷ seen) us

dedupe-NewKeys : (entries seen : List Text) → NewKeys seen (dedupe seen entries)
unfolding dedupe
dedupe-NewKeys [] seen = tt
dedupe-NewKeys (e ∷ entries) seen = elim (Bool-cases (any (equals (lower e)) seen)) [
  | inl known ↦ rw known (dedupe-NewKeys entries seen)
  | inr new ↦ rw new (new, dedupe-NewKeys entries (lower e ∷ seen))
]

pub mailto-not-http : (s : Text) → equals s (codes "mailto") ≡ true → is_http s ≡ false
unfolding is_http
mailto-not-http s h = subst (λ t. is_http t ≡ false) (sym (equals→eq s (codes "mailto") h)) refl

-- `mailto` so far, or else the first such target of the entries.
abbrev pub or_mail : Option Text → List Text → Option Text
or_mail (some m) entries = some m
or_mail none entries = first_mail entries

abbrev when : Bool → Text → List Text
when b entry = if b then entry ∷ [] else []

take_target-step :
    (scheme e : Text) (t : Targets)
    → any (equals e) t.http_urls ≡ false
    → take_target scheme e t ≡ record {
      http_urls = t.http_urls ++ when (is_http scheme && leb (length e) max_url_len) e;
      mailto = elim t.mailto [
        | some m ↦ some m
        | none ↦
            if equals scheme (codes "mailto") && leb (length e) max_url_len then some e else none
      ];
    }
unfolding take_target
take_target-step scheme e t new = ground (arith, mailto-not-http scheme, append-nil t.http_urls)

take_entry-step :
    (e : Text) (t : Targets)
    → any (equals e) t.http_urls ≡ false
    → take_entry e t
      ≡ record { http_urls = t.http_urls ++ when (is_url e) e; mailto = or_mail t.mailto (e ∷ []) }
unfolding take_entry
take_entry-step e t new = elim (Option-cases (scheme_of e)) [
  | inl no_scheme ↦ ground (arith, append-nil t.http_urls)
  | inr (s, scheme) ↦ ground (arith, take_target-step s e t new)
]

-- A text that was taken has its key among those that were seen.
abbrev pub Covers : List Text → List Text → Type 0
Covers seen urls = (key : Text) → any (equals key) seen ≡ false → has_key key urls ≡ false

new-not-known :
    (e : Text) (urls : List Text) → has_key (lower e) urls ≡ false → any (equals e) urls ≡ false
new-not-known e [] h = refl
new-not-known e (u ∷ urls) h =
    ground
      (arith, new-not-known e urls, equals→eq e u, equals_refl (lower u), λ (p : e ≡ u). ap lower p)

has_key-append :
    (key : Text) (xs ys : List Text) → has_key key (xs ++ ys) ≡ (has_key key xs || has_key key ys)
has_key-append key [] ys = refl
has_key-append key (x ∷ xs) ys = ground (arith, has_key-append key xs ys)

Covers-next :
    (e : Text) (seen urls : List Text) (b : Bool)
    → Covers seen urls
    → Covers (lower e ∷ seen) (urls ++ when b e)
Covers-next e seen urls true covers key new =
    ground (arith, covers key, has_key-append key urls (e ∷ []))
Covers-next e seen urls false covers key new =
    ground (arith, covers key, has_key-append key urls [])

filter-when :
    (e : Text) (es : List Text) → filter is_url (e ∷ es) ≡ when (is_url e) e ++ filter is_url es
filter-when e es = ground arith

pub take_entries-filter :
    (es seen : List Text) (t : Targets)
    → NewKeys seen es
    → Covers seen t.http_urls
    → take_entries es t
      ≡ record { http_urls = t.http_urls ++ filter is_url es; mailto = or_mail t.mailto es }
unfolding take_entries
take_entries-filter [] seen t new covers = ground (arith, append-nil t.http_urls)
take_entries-filter (e ∷ es) seen t new covers =
    let urls = t.http_urls ++ when (is_url e) e in
    let next : Targets = record { http_urls = urls; mailto = or_mail t.mailto (e ∷ []) } in
    let step : take_entry e t ≡ next =
      take_entry-step e t (new-not-known e t.http_urls (covers (lower e) new.0)) in
    let later =
      take_entries-filter es (lower e ∷ seen) next new.1
        (Covers-next e seen t.http_urls (is_url e) covers) in
    ap (take_entries es) step
    ∙ later
    ∙ ground
        (arith, append_assoc t.http_urls (when (is_url e) e) (filter is_url es), filter-when e es)

pub extract_entries-NewKeys : (header : Text) → NewKeys [] (extract_entries header)
unfolding extract_entries
extract_entries-NewKeys header =
    elim (map remove_spaces (brackets none header))
      as (λ found. NewKeys [] (elim found [
        | [] ↦ dedupe [] (loose_entries header)
        | entry ∷ entries ↦ dedupe [] (entry ∷ entries)
      ])) [
        | [] ↦ dedupe-NewKeys (loose_entries header) []
        | entry ∷ entries ↦ dedupe-NewKeys (entry ∷ entries) []
      ]

any-more :
    (key k : Text) (seen : List Text)
    → any (equals key) (k ∷ seen) ≡ false
    → any (equals key) seen ≡ false
any-more key k seen h = ground arith

abbrev Includes : List Text → List Text → Type 0
Includes seen few = (key : Text) → any (equals key) seen ≡ false → any (equals key) few ≡ false

Includes-cons :
    (k : Text) (seen few : List Text) → Includes seen few → Includes (k ∷ seen) (k ∷ few)
Includes-cons k seen few inc key new = ground (arith, inc key)

filter-NewKeys :
    (p : Text → Bool) (us seen few : List Text)
    → Includes seen few
    → NewKeys seen us
    → NewKeys few (filter p us)
filter-NewKeys p [] seen few inc new = tt
filter-NewKeys p (u ∷ us) seen few inc new = elim (Bool-cases (p u)) [
  | inl kept ↦ rw kept (
    inc (lower u) new.0,
    filter-NewKeys p us (lower u ∷ seen) (lower u ∷ few) (Includes-cons (lower u) seen few inc)
        new.1,
  )
  | inr dropped ↦ rw dropped (
      filter-NewKeys p us (lower u ∷ seen) few (λ key h. inc key (any-more key (lower u) seen h))
        new.1)
]

take-NewKeys : (n : ℕ) (us seen : List Text) → NewKeys seen us → NewKeys seen (take n us)
take-NewKeys zero us seen new = tt
take-NewKeys (suc n) [] seen new = tt
take-NewKeys (suc n) (u ∷ us) seen new = (new.0, take-NewKeys n us (lower u ∷ seen) new.1)

-- What an action has of the entries of its header.
pub record IsParsed (entries : List Text) (post_header : Option Text) (a : UnsubscribeAction)
    : Type 0 where
  pub urls : a.http_urls ≡ take max_entries (filter is_url entries)
  pub mail : a.mailto ≡ first_mail entries
  pub one_click : a.one_click ≡ is_one_click post_header
  pub differ : NewKeys [] a.http_urls
  pub acts : has_any_action a ≡ true

abbrev pub Parses : Text → Option Text → Option UnsubscribeAction → Type 0
Parses header post_header none =
    (is_empty (strip header) ≡ true)
    ⊎ ((filter is_url (extract_entries header) ≡ []) × (first_mail (extract_entries header) ≡ none))
Parses header post_header (some a) = IsParsed (extract_entries header) post_header a

to_action-Parses :
    (header : Text) (post_header : Option Text) (urls : List Text)
    → urls ≡ filter is_url (extract_entries header)
    → NewKeys [] (take max_entries urls)
    → Parses header post_header (
        to_action post_header
          (record { http_urls = urls; mailto = first_mail (extract_entries header) }))
unfolding to_action has_any_action
to_action-Parses header post_header [] e new =
    elim (Option-cases (first_mail (extract_entries header))) [
      | inl nothing ↦ rw nothing (inr (sym e, nothing))
      | inr (m, found) ↦ rw found (record {
        urls = ap (take max_entries) e;
        mail = sym found;
        one_click = refl;
        differ = tt;
        acts = refl;
      })
    ]
to_action-Parses header post_header (u ∷ urls) e new = record {
  urls = ap (take max_entries) e;
  mail = refl;
  one_click = refl;
  differ = new;
  acts = refl;
}

-- A header that is not blank gives an action exactly when one of its entries is a target. The
-- action has the first sixteen URLs among the entries in their order, which differ in more than case,
-- and the first `mailto:` target.
pub parse_list_unsubscribe-Parses :
    (header : Text) (post_header : Option Text)
    → Parses header post_header (parse_list_unsubscribe (some header) post_header)
unfolding parse_list_unsubscribe
parse_list_unsubscribe-Parses header post_header = elim (Bool-cases (is_empty (strip header))) [
  | inl blank ↦ rw blank (inl blank)
  | inr filled ↦
      let entries = extract_entries header in
      let new = extract_entries-NewKeys header in
      let loop = take_entries-filter entries [] no_targets new (λ key h. refl) in
      rw (filled, loop)
        (to_action-Parses header post_header (filter is_url entries) refl (
          take-NewKeys max_entries (filter is_url entries) []
            (filter-NewKeys is_url entries [] [] (λ key h. h) new)))
]
