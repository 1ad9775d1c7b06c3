-- ===== src/Redaction/Tests.antt =====
-- A chain of two sanitizers on a text.
use briefed.Base.{◌≡◌, refl, List, [], ◌∷◌, none}
use briefed.Base.Dict.{get_or, lookup, insert}
use briefed.Redaction.{Sanitizer, chain}
use briefed.Redaction.Chain.{chain-passes, passes, last_text, total_all, latest_all}

abbrev name_pass : Sanitizer
name_pass = record {
  sanitize = λ text. record {
    text = "<NAME_0> <a@b.c>";
    reversal_map = ("<NAME_0>", "Kim") ∷ [];
    counts_by_kind = ("NAME", 1) ∷ [];
  };
}

abbrev mail_pass : Sanitizer
mail_pass = record {
  sanitize = λ text. record {
    text = "<NAME_0> <EMAIL_0>";
    reversal_map = ("<EMAIL_0>", "a@b.c") ∷ ("<NAME_0>", "kim") ∷ [];
    counts_by_kind = ("EMAIL", 1) ∷ ("NAME", 2) ∷ [];
  };
}

abbrev both : List Sanitizer
both = name_pass ∷ mail_pass ∷ []

both-text : ((chain both).sanitize "Kim <a@b.c>").text ≡ "<NAME_0> <EMAIL_0>"
unfolding chain
both-text = refl

both-counts : get_or "NAME" 0 ((chain both).sanitize "Kim <a@b.c>").counts_by_kind ≡ 3
unfolding chain lookup insert
both-counts = refl

chain-passes_example :
    let r = (chain both).sanitize "Kim <a@b.c>" in
    let rs = passes both "Kim <a@b.c>" in
    (r.text ≡ last_text "Kim <a@b.c>" rs)
    × (get_or "NAME" 0 r.counts_by_kind ≡ total_all "NAME" rs)
    × (lookup "<NAME_0>" r.reversal_map ≡ latest_all "<NAME_0>" rs none)
chain-passes_example = chain-passes both "Kim <a@b.c>" "NAME" "<NAME_0>"
