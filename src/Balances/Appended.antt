-- ===== src/Balances/Appended.antt =====
-- What one more entry adds to the sums of an account.
use accounting_api.Common.{ℕ, ◌≡◌, ap, ◌∙◌, inl, inr, List, [], ◌∷◌, ◌++◌, Bool-cases, Bool, ◌&&◌}
use accounting_api.Common.Int.{◌+ℤ◌, int_laws}
use accounting_api.Dates.{Date}
use accounting_api.Store.{JournalEntry, JournalLine}
use accounting_api.Balances.{is_posted_je, sum_debit, sum_credit, counted_lines}

pub sum_debit-append :
    (id : ℕ) (xs ys : List JournalLine)
    → sum_debit id (xs ++ ys) ≡ sum_debit id xs +ℤ sum_debit id ys
unfolding sum_debit
sum_debit-append id [] ys = omega int_laws
sum_debit-append id (x ∷ xs) ys = rw (sum_debit-append id xs ys) (omega int_laws)

pub sum_credit-append :
    (id : ℕ) (xs ys : List JournalLine)
    → sum_credit id (xs ++ ys) ≡ sum_credit id xs +ℤ sum_credit id ys
unfolding sum_credit
sum_credit-append id [] ys = omega int_laws
sum_credit-append id (x ∷ xs) ys = rw (sum_credit-append id xs ys) (omega int_laws)

-- One entry more that counts adds its lines.
pub counted_lines-one :
    (f : Date → Bool) (e : JournalEntry) (es : List JournalEntry)
    → counted_lines f (e ∷ []) ≡ e.lines
    → (id : ℕ)
    → (sum_debit id (counted_lines f (es ++ (e ∷ [])))
        ≡ sum_debit id (counted_lines f es) +ℤ sum_debit id e.lines)
      × (sum_credit id (counted_lines f (es ++ (e ∷ [])))
          ≡ sum_credit id (counted_lines f es) +ℤ sum_credit id e.lines)
unfolding counted_lines sum_debit sum_credit
counted_lines-one f e [] h id =
    (ap (sum_debit id) h ∙ omega int_laws, ap (sum_credit id) h ∙ omega int_laws)
counted_lines-one f e (x ∷ es) h id =
    let ih = counted_lines-one f e es h id in
    let before = counted_lines f es in
    let after = counted_lines f (es ++ (e ∷ [])) in
    elim (Bool-cases (is_posted_je x && f x.date)) [
      | inl t ↦
          rw
            (
              t,
              sum_debit-append id x.lines after,
              sum_debit-append id x.lines before,
              sum_credit-append id x.lines after,
              sum_credit-append id x.lines before,
              ih.0,
              ih.1,
            )
            (omega int_laws, omega int_laws)
      | inr t ↦ rw t ih
    ]
