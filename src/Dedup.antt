-- ===== src/Dedup.antt =====
-- `classify_incoming` of backend/app/services/ingestion/dedup.py. A content hash is an opaque text.
mod Placed
pub mod Split
pub mod Replay
mod Tests
use briefed.Base.{
  ℕ, String, List, [], ◌∷◌, ◌++◌, Bool, true, false, ◌||◌, ◌&&◌, Option, none, some, str_eq,
  if◌then◌else◌,
}
use briefed.Mail.{EmailMessage}
use briefed.Base.Dict.{Dict, lookup, insert}

pub record DedupOutcome : Type 0 where
  pub to_insert : List EmailMessage
  pub duplicates : List EmailMessage
  pub divergent : List EmailMessage

-- `existing == bytes(msg.content_hash)`, where `None` differs from every hash.
abbrev pub is_hash : Option String → String → Bool
is_hash none hash = false
is_hash (some known) hash = str_eq known hash

abbrev pub is_absent : Option String → Bool
is_absent none = true
is_absent (some known) = false

-- The body of the loop: the outcome so far and `seen_this_batch`.
unfoldable pub classify_one :
    Dict String → EmailMessage → DedupOutcome × Dict String → DedupOutcome × Dict String
classify_one known_hashes msg (o, seen_this_batch) =
    let existing = lookup msg.message_id known_hashes in
    let batch = lookup msg.message_id seen_this_batch in
    if is_absent existing && is_absent batch
    then (
      record o { to_insert = o.to_insert ++ msg ∷ [] },
      insert msg.message_id msg.content_hash seen_this_batch,
    )
    else if is_hash existing msg.content_hash || is_hash batch msg.content_hash
    then (record o { duplicates = o.duplicates ++ msg ∷ [] }, seen_this_batch)
    else (record o { divergent = o.divergent ++ msg ∷ [] }, seen_this_batch)

unfoldable pub classify_all :
    Dict String → List EmailMessage → DedupOutcome × Dict String → DedupOutcome × Dict String
classify_all known_hashes [] s = s
classify_all known_hashes (msg ∷ messages) s =
    classify_all known_hashes messages (classify_one known_hashes msg s)

unfoldable pub classify_incoming : Dict String → List EmailMessage → DedupOutcome
classify_incoming known_hashes messages =
    (classify_all known_hashes messages
      (record { to_insert = []; duplicates = []; divergent = [] }, [])).0
