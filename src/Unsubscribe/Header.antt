-- ===== src/Unsubscribe/Header.antt =====
-- backend/app/services/unsubscribe/parser.py. A header is ASCII, as character codes; the regular
-- expressions are walks, which are said where they stand.
pub mod Parsed
pub mod Printed
use mathlib.Core.List.{reverse}
use mathlib.Core.Option
use briefed.Base.{
  ℕ, List, [], ◌∷◌, ◌++◌, Bool, true, false, not, ◌&&◌, ◌||◌, Option, none, some, map, any, filter,
  take, length, leb, ◌==◌, if◌then◌else◌, is_some,
}
use briefed.Schedule.Slot.{codes, is_space, strip}
use briefed.Rubric.Texts.{Text, lower, equals, starts_with, contains, is_empty}

-- `_MAX_ENTRIES`
abbrev pub max_entries : ℕ
max_entries = 16

-- `_MAX_URL_LEN`
abbrev pub max_url_len : ℕ
max_url_len = 2048

pub record UnsubscribeAction : Type 0 where
  pub http_urls : List Text
  pub mailto : Option Text
  pub one_click : Bool

unfoldable pub has_any_action : UnsubscribeAction → Bool
has_any_action a = not (is_empty a.http_urls) || is_some a.mailto

-- `url.lower().startswith("https://")`
unfoldable pub is_https : Text → Bool
unfolding lower starts_with
is_https url = starts_with (codes "https://") (lower url)

-- The loop that returns the first HTTPS URL.
unfoldable pub first_https : List Text → Option Text
unfolding is_https
first_https [] = none
first_https (url ∷ urls) = let rest = first_https urls in if is_https url then some url else rest

unfoldable pub preferred_url : UnsubscribeAction → Option Text
unfolding first_https
preferred_url a = elim (first_https a.http_urls) [
  | some url ↦ some url
  | none ↦ elim a.http_urls [ [] ↦ a.mailto | url ∷ urls ↦ some url ]
]

-- `re.sub(r"\s+", "", text)`
unfoldable pub remove_spaces : Text → Text
unfolding is_space
remove_spaces cs = filter (λ c. not (is_space c)) cs

-- The text since the last `<` of a walk, newest character first; `none` outside of brackets.
unfoldable pub next_segment : Option Text → ℕ → Option Text
next_segment inside c =
    if c == b'<'
    then some []
    else if c == b'>'
    then none
    else Option.map (λ (seen : Text). c ∷ seen) inside

-- What a `>` closes: a segment with a character in it.
unfoldable pub closed_segment : Option Text → ℕ → List Text
closed_segment none c = []
closed_segment (some []) c = []
closed_segment (some (d ∷ seen)) c = if c == b'>' then reverse (d ∷ seen) ∷ [] else []

-- `_BRACKET_RE.findall(header)`, with the spaces around a segment, which the caller removes: the
-- stretches between a `<` and a `>` that hold neither.
unfoldable pub brackets : Option Text → Text → List Text
unfolding next_segment closed_segment
brackets inside [] = []
brackets inside (c ∷ cs) = closed_segment inside c ++ brackets (next_segment inside c) cs

-- `re.split(r"[,\s]+", header)`, without its empty chunks: the first argument is the chunk so far.
unfoldable pub chunks : Text → Text → List Text
unfolding is_space
chunks chunk [] = if is_empty chunk then [] else reverse chunk ∷ []
chunks chunk (c ∷ cs) =
    let cut = c == b',' || is_space c in
    let rest = chunks (if cut then [] else c ∷ chunk) cs in
    if cut && not (is_empty chunk) then reverse chunk ∷ rest else rest

unfoldable pub drop_marks : Text → Text
drop_marks [] = []
drop_marks (c ∷ cs) = let rest = drop_marks cs in if c == b';' || c == b',' then rest else c ∷ cs

-- `chunk.strip(";,")`
unfoldable pub strip_marks : Text → Text
unfolding drop_marks
strip_marks cs = reverse (drop_marks (reverse (drop_marks cs)))

-- The loop of `_dedupe`, with `seen`.
unfoldable pub dedupe : List Text → List Text → List Text
unfolding equals lower
dedupe seen [] = []
dedupe seen (entry ∷ entries) =
    let known = any (equals (lower entry)) seen in
    let rest = dedupe (if known then seen else lower entry ∷ seen) entries in
    if known then rest else entry ∷ rest

unfoldable pub loose_entries : Text → List Text
unfolding chunks strip_marks strip
loose_entries header =
    filter (λ chunk. not (is_empty chunk))
      (map (λ chunk. strip_marks (strip chunk)) (chunks [] header))

-- `_extract_entries`
unfoldable pub extract_entries : Text → List Text
unfolding brackets remove_spaces dedupe loose_entries
extract_entries header = elim (map remove_spaces (brackets none header)) [
  | [] ↦ dedupe [] (loose_entries header)
  | entry ∷ entries ↦ dedupe [] (entry ∷ entries)
]

unfoldable pub is_alpha : ℕ → Bool
is_alpha c = (leb b'a' c && leb c b'z') || (leb b'A' c && leb c b'Z')

unfoldable pub is_scheme_char : ℕ → Bool
unfolding is_alpha
is_scheme_char c = is_alpha c || (leb b'0' c && leb c b'9') || c == b'+' || c == b'-' || c == b'.'

-- The rest of a scheme, up to its `:`.
unfoldable pub scheme_rest : Text → Option Text
unfolding is_scheme_char
scheme_rest [] = none
scheme_rest (c ∷ cs) =
    let rest = scheme_rest cs in
    if c == b':'
    then some []
    else if is_scheme_char c
    then Option.map (λ (s : Text). c ∷ s) rest
    else none

-- `\s*` under `re.ASCII`
unfoldable pub skip_spaces : Text → Text
skip_spaces [] = []
skip_spaces (c ∷ cs) =
    let rest = skip_spaces cs in if c == 32 || (leb 9 c && leb c 13) then rest else c ∷ cs

unfoldable pub scheme_at : Text → Option Text
unfolding scheme_rest is_alpha lower
scheme_at [] = none
scheme_at (c ∷ cs) =
    if is_alpha c then Option.map (λ (s : Text). lower (c ∷ s)) (scheme_rest cs) else none

-- `_scheme_of`
unfoldable pub scheme_of : Text → Option Text
unfolding scheme_at skip_spaces
scheme_of entry = scheme_at (skip_spaces entry)

-- `_is_one_click`
unfoldable pub is_one_click : Option Text → Bool
unfolding remove_spaces lower contains
is_one_click none = false
is_one_click (some post_header) =
    contains (codes "list-unsubscribe=one-click") (lower (remove_spaces post_header))

-- `http_urls` and `mailto` of the loop of `parse_list_unsubscribe`.
pub record Targets : Type 0 where
  pub http_urls : List Text
  pub mailto : Option Text

unfoldable pub is_http : Text → Bool
unfolding equals
is_http scheme = equals scheme (codes "http") || equals scheme (codes "https")

-- The body of the loop, for an entry with a scheme.
unfoldable pub take_target : Text → Text → Targets → Targets
unfolding equals is_http
take_target scheme entry t =
    if equals scheme (codes "mailto")
    then (if not (is_some t.mailto) && leb (length entry) max_url_len
        then record t { mailto = some entry }
        else t)
    else if is_http scheme && leb (length entry) max_url_len && not (any (equals entry) t.http_urls)
    then record t { http_urls = t.http_urls ++ entry ∷ [] }
    else t

unfoldable pub take_entry : Text → Targets → Targets
unfolding scheme_of take_target
take_entry entry t = elim (scheme_of entry) [ none ↦ t | some scheme ↦ take_target scheme entry t ]

unfoldable pub take_entries : List Text → Targets → Targets
unfolding take_entry
take_entries [] t = t
take_entries (entry ∷ entries) t = take_entries entries (take_entry entry t)

abbrev pub no_targets : Targets
no_targets = record { http_urls = []; mailto = none }

-- The return of `parse_list_unsubscribe`.
unfoldable pub to_action : Option Text → Targets → Option UnsubscribeAction
unfolding is_one_click
to_action post_header t =
    if is_empty t.http_urls && not (is_some t.mailto)
    then none
    else some (record {
      http_urls = take max_entries t.http_urls;
      mailto = t.mailto;
      one_click = is_one_click post_header;
    })

unfoldable pub parse_list_unsubscribe : Option Text → Option Text → Option UnsubscribeAction
unfolding extract_entries take_entries to_action strip
parse_list_unsubscribe none post_header = none
parse_list_unsubscribe (some header) post_header =
    if is_empty (strip header)
    then none
    else to_action post_header (take_entries (extract_entries header) no_targets)
