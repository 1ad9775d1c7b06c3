-- ===== src/Dedup/Split.antt =====
-- Where each message of a batch goes.
use mathlib.Core.List.{Memᴰ}
use mathlib.Core.List.Memᴰ
use mathlib.Core.List.Memᴰ.{head}
use briefed.Base.{
  if-elim, length, ◌≡◌, ◌≢◌, ◌⊎◌, inl, inr, refl, sym, subst, String, List, [], ◌∷◌, ◌++◌, none,
  some, str_eq, All, All-append, All-map, arith, eq_iff, Bool-cases, Option-cases, if◌then◌else◌,
}
use briefed.Base.Dict.{Dict, lookup, insert, lookup-insert}
use briefed.Mail.{EmailMessage}
use briefed.Dedup.Placed.{IsPlaced, total, classify_all-IsPlaced, classify_all-total}
use briefed.Base.Dict.{lookup-nil}
use briefed.Dedup.{DedupOutcome, classify_one, classify_all, classify_incoming}

-- The hash by which a message of the batch is measured: the known one of its id or, for an id that is
-- not known, that of the inserted message.
pub data HasHash (known : Dict String) (inserted : List EmailMessage) (id hash : String)
    : Type 0 where
  by_known : lookup id known ≡ some hash → HasHash known inserted id hash
  by_batch :
      (m : EmailMessage)
      → lookup id known ≡ none
      → Memᴰ m inserted
      → m.message_id ≡ id
      → m.content_hash ≡ hash
      → HasHash known inserted id hash

-- An inserted message is new to the ledger, and the only one inserted under its id.
abbrev pub AllNew : Dict String → List EmailMessage → Type 0
AllNew known [] = Unit
AllNew known (m ∷ ms) =
    (lookup m.message_id known ≡ none)
    × All (λ m'. m'.message_id ≢ m.message_id) ms
    × AllNew known ms

-- What the lists of the outcome mean.
pub record IsSplit (known : Dict String) (o : DedupOutcome) : Type 0 where
  pub new : AllNew known o.to_insert
  pub same : All (λ m. HasHash known o.to_insert m.message_id m.content_hash) o.duplicates
  pub changed :
      All
        (λ m.
          (hash : String) × HasHash known o.to_insert m.message_id hash × (hash ≢ m.content_hash))
        o.divergent

-- `seen_this_batch` has the inserted messages, by id.
record Agrees (known : Dict String) (o : DedupOutcome) (seen : Dict String) : Type 0 where
  split : IsSplit known o
  seen_unknown :
      (id hash : String)
      → lookup id seen ≡ some hash
      → (lookup id known ≡ none)
        × (m : EmailMessage) × Memᴰ m o.to_insert
        × (m.message_id ≡ id)
        × (m.content_hash ≡ hash)
  unseen : (id : String) → lookup id seen ≡ none → All (λ m. m.message_id ≢ id) o.to_insert

HasHash-append :
    (known : Dict String) (xs ys : List EmailMessage) (id hash : String)
    → HasHash known xs id hash
    → HasHash known (xs ++ ys) id hash
HasHash-append known xs ys id hash (by_known e) = by_known e
HasHash-append known xs ys id hash (by_batch m n i e h) = by_batch m n (Memᴰ.append_left ys i) e h

AllNew-append :
    (known : Dict String) (xs : List EmailMessage) (m : EmailMessage)
    → AllNew known xs
    → lookup m.message_id known ≡ none
    → All (λ m'. m'.message_id ≢ m.message_id) xs
    → AllNew known (xs ++ m ∷ [])
AllNew-append known [] m a n f = (n, tt, tt)
AllNew-append known (x ∷ xs) m (unknown, others, a) n f = (
  unknown,
  All-append (λ m'. m'.message_id ≢ x.message_id) xs (m ∷ []) others (λ e. f.0 (sym e), tt),
  AllNew-append known xs m a n f.1,
)

module _ (known : Dict String) (msg : EmailMessage) (o : DedupOutcome) (seen : Dict String)
    (g : Agrees known o seen) where
  insert-Agrees :
      lookup msg.message_id known ≡ none
      → lookup msg.message_id seen ≡ none
      → Agrees known
          (record o { to_insert = o.to_insert ++ msg ∷ [] })
          (insert msg.message_id msg.content_hash seen)
  insert-Agrees unknown fresh = record {
    split = record {
      new = AllNew-append known o.to_insert msg g.split.new unknown (g.unseen msg.message_id fresh);
      same =
          All-map (λ m h. HasHash-append known o.to_insert (msg ∷ []) m.message_id m.content_hash h)
            o.duplicates g.split.same;
      changed =
          All-map
            (λ m h. (h.0, HasHash-append known o.to_insert (msg ∷ []) m.message_id h.0 h.1, h.2))
            o.divergent g.split.changed;
    };
    seen_unknown = λ id hash e. elim (Bool-cases (str_eq msg.message_id id)) [
      | inl ours ↦
          let here : msg.message_id ≡ id = ground (arith, eq_iff msg.message_id id) in
          (
            subst (λ i. lookup i known ≡ none) here unknown,
            msg,
            Memᴰ.append_right o.to_insert (head refl),
            here,
            ground (arith, lookup-insert msg.message_id id msg.content_hash seen),
          )
      | inr theirs ↦
          let (n, m, i, e', h) =
            g.seen_unknown id hash
              (ground (arith, lookup-insert msg.message_id id msg.content_hash seen)) in
          (n, m, Memᴰ.append_left (msg ∷ []) i, e', h)
    ];
    unseen = λ id e.
        let old : lookup id seen ≡ none =
          ground (arith, lookup-insert msg.message_id id msg.content_hash seen) in
        All-append (λ m. m.message_id ≢ id) o.to_insert (msg ∷ []) (g.unseen id old)
          (
            λ here. ground (
              arith,
              lookup-insert msg.message_id id msg.content_hash seen,
              eq_iff msg.message_id id,
            ),
            tt,
          );
  }

  reference :
      (hash : String)
      → (lookup msg.message_id known ≡ some hash)
        ⊎ ((lookup msg.message_id known ≡ none) × (lookup msg.message_id seen ≡ some hash))
      → HasHash known o.to_insert msg.message_id hash
  reference hash (inl e) = by_known e
  reference hash (inr (n, e)) =
      let (unknown, m, i, same, h) = g.seen_unknown msg.message_id hash e in by_batch m n i same h

  duplicate-Agrees :
      HasHash known o.to_insert msg.message_id msg.content_hash
      → Agrees known (record o { duplicates = o.duplicates ++ msg ∷ [] }) seen
  duplicate-Agrees h = record {
    split = record {
      new = g.split.new;
      same =
          All-append (λ m. HasHash known o.to_insert m.message_id m.content_hash) o.duplicates
            (msg ∷ []) g.split.same (h, tt);
      changed = g.split.changed;
    };
    seen_unknown = g.seen_unknown;
    unseen = g.unseen;
  }

  divergent-Agrees :
      (hash : String)
      → HasHash known o.to_insert msg.message_id hash
      → hash ≢ msg.content_hash
      → Agrees known (record o { divergent = o.divergent ++ msg ∷ [] }) seen
  divergent-Agrees hash h differs = record {
    split = record {
      new = g.split.new;
      same = g.split.same;
      changed =
          All-append
            (λ m. (k : String) × HasHash known o.to_insert m.message_id k × (k ≢ m.content_hash))
            o.divergent (msg ∷ []) g.split.changed ((hash, h, differs), tt);
    };
    seen_unknown = g.seen_unknown;
    unseen = g.unseen;
  }

  measured-Agrees :
      (hash : String)
      → HasHash known o.to_insert msg.message_id hash
      → classify_one known msg (o, seen) ≡ (
          if str_eq hash msg.content_hash
          then (record o { duplicates = o.duplicates ++ msg ∷ [] }, seen)
          else (record o { divergent = o.divergent ++ msg ∷ [] }, seen))
      → Agrees known (classify_one known msg (o, seen)).0 (classify_one known msg (o, seen)).1
  measured-Agrees hash h e =
      subst (λ (r : DedupOutcome × Dict String). Agrees known r.0 r.1) (sym e)
        (if-elim (λ (r : DedupOutcome × Dict String). Agrees known r.0 r.1)
          (str_eq hash msg.content_hash)
          (λ same. duplicate-Agrees (
            subst (HasHash known o.to_insert msg.message_id)
              (ground (arith, eq_iff hash msg.content_hash)) h))
          (λ differs. divergent-Agrees hash h (λ e'. ground (arith, eq_iff hash msg.content_hash))))

  classify_one-Agrees :
      Agrees known (classify_one known msg (o, seen)).0 (classify_one known msg (o, seen)).1
  unfolding classify_one
  classify_one-Agrees = elim (Option-cases (lookup msg.message_id known)) [
    | inr (hash, k) ↦ elim (Option-cases (lookup msg.message_id seen)) [
      | inl fresh ↦ measured-Agrees hash (by_known k) (ground arith)
      | inr (h, e) ↦ absurd (ground (arith, (g.seen_unknown msg.message_id h e).0))
    ]
    | inl unknown ↦ elim (Option-cases (lookup msg.message_id seen)) [
      | inr (hash, e) ↦ measured-Agrees hash (reference hash (inr (unknown, e))) (ground arith)
      | inl fresh ↦
          let inserted : classify_one known msg (o, seen) ≡ (
            record o { to_insert = o.to_insert ++ msg ∷ [] },
            insert msg.message_id msg.content_hash seen,
          ) =
            ground arith in
          subst (λ (r : DedupOutcome × Dict String). Agrees known r.0 r.1) (sym inserted)
            (insert-Agrees unknown fresh)
    ]
  ]

module _ (known : Dict String) where
  classify_all-Agrees :
      (messages : List EmailMessage) (o : DedupOutcome) (seen : Dict String)
      → Agrees known o seen
      → IsSplit known (classify_all known messages (o, seen)).0
  unfolding classify_all
  classify_all-Agrees [] o seen g = g.split
  classify_all-Agrees (msg ∷ messages) o seen g =
      classify_all-Agrees messages (classify_one known msg (o, seen)).0
        (classify_one known msg (o, seen)).1 (classify_one-Agrees known msg o seen g)

  -- Every message of a batch goes into one of the three lists, and nothing else does. The inserted
  -- ones are new to the ledger and have different ids; a duplicate has the hash that the ledger or
  -- the inserted message of its id has, and a divergent one has another than that.
  pub classify_incoming-IsSplit :
      (messages : List EmailMessage)
      → IsSplit known (classify_incoming known messages)
        × All (IsPlaced (classify_incoming known messages)) messages
        × (total (classify_incoming known messages) ≡ length messages)
  unfolding classify_incoming
  classify_incoming-IsSplit messages =
      let nothing : DedupOutcome = record { to_insert = []; duplicates = []; divergent = [] } in
      (
        classify_all-Agrees messages nothing [] (record {
          split = record { new = tt; same = tt; changed = tt };
          seen_unknown = λ id hash e. ground (arith, lookup-nil {V = String} id);
          unseen = λ id e. tt;
        }),
        classify_all-IsPlaced known messages nothing [],
        omega (arith, classify_all-total known messages nothing []),
      )
