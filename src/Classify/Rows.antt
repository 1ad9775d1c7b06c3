-- ===== src/Classify/Rows.antt =====
-- What a write does to the rows of classifications.
use briefed.Base.{ℕ, ◌*◌, ◌≡◌, ◌≢◌, String, List, [], ◌∷◌, some, eq_iff, arith}
use briefed.Tables.{Classification}
use briefed.Classify.Repository.{put_row}
use briefed.Classify.Types.{find_classification}
use briefed.Classify.Writes.{to_decimal}

pub to_decimal-thousands : (n : ℕ) → to_decimal (n * 1000) ≡ n
unfolding to_decimal
to_decimal-thousands n = ground arith

module _ (id : String) (row : Classification) where
  pub find-put_row :
      row.email_id ≡ id
      → (rows : List Classification) → find_classification id (put_row row rows) ≡ some row
  unfolding put_row
  find-put_row e [] = ground (arith, eq_iff row.email_id id)
  find-put_row e (c ∷ rows) = ground (
    arith,
    find-put_row e rows,
    eq_iff row.email_id id,
    eq_iff c.email_id id,
    eq_iff c.email_id row.email_id,
  )

  pub find-put_row_other :
      row.email_id ≢ id
      → (rows : List Classification)
      → find_classification id (put_row row rows) ≡ find_classification id rows
  unfolding put_row
  find-put_row_other ne [] = ground (arith, eq_iff row.email_id id)
  find-put_row_other ne (c ∷ rows) = ground (
    arith,
    find-put_row_other ne rows,
    eq_iff row.email_id id,
    eq_iff c.email_id id,
    eq_iff c.email_id row.email_id,
  )
