-- ===== src/Reports/CashMoves.antt =====
-- The cash accounts before and after a range of days (src/reporting/cash-flow.service.ts).
use accounting_api.Common.{
  ℕ, ◌≡◌, ◌≤◌, refl, sym, ap₂, ◌∙◌, Bool, true, false, ◌&&◌, ◌||◌, none, some, List, [], ◌∷◌, ◌++◌,
  ◌==◌, map, All, Bool-cases, inl, inr, arith, All-append, leb,
}
use accounting_api.Common.Int.{◌+ℤ◌}
use accounting_api.Money.{Decimals}
use accounting_api.Dates.{Date, key, leb_date, day_before}
use accounting_api.Dates.DayBefore.{IsDay, leb_date-day_before}
use accounting_api.Store.{Db, Account, JournalEntry, JournalLine, cash}
use accounting_api.Invoicing.{role_code}
use accounting_api.Balances.{is_posted_je, counted_lines, grouped_balances, to_row}
use accounting_api.Reports.Parts.{weigh}
use accounting_api.Reports.CashFlow.{is_cash_row}
use accounting_api.Reports.OverTime.{loss, weigh-over, Splits, counted-split, over-split}

abbrev is_cash_account : Account → Bool
is_cash_account a = elim a.role [ none ↦ false | some role ↦ role_code role == role_code cash ]

All-parts : {A : Type 0} (P : A → Type 0) (xs ys : List A) → All P (xs ++ ys) → All P xs × All P ys
All-parts P [] ys h = (tt, h)
All-parts P (x ∷ xs) ys h = let rest = All-parts P xs ys h.1 in ((h.0, rest.0), rest.1)

or_second : (a b : Bool) → b ≡ true → (a || b) ≡ true
or_second true b h = refl
or_second false b h = h

-- Of two filters the second takes fewer lines than the one they make up.
pub All-narrow :
    (P : JournalLine → Type 0) (f g h : Date → Bool) (es : List JournalEntry)
    → All (Splits f g h) es
    → All P (counted_lines h es)
    → All P (counted_lines g es)
unfolding counted_lines
All-narrow P f g h [] s a = tt
All-narrow P f g h (e ∷ es) s a =
    let both = s.0.0 in
    elim (Bool-cases (is_posted_je e)) [
      | inr t ↦
          let a' : All P (counted_lines h es) = rw t at a in rw t (All-narrow P f g h es s.1 a')
      | inl t ↦ elim (Bool-cases (g e.date)) [
        | inl v ↦
            let taken : h e.date ≡ true = both ∙ or_second (f e.date) (g e.date) v in
            let a' : All P (e.lines ++ counted_lines h es) = rw (t, taken) at a in
            let parts = All-parts P e.lines (counted_lines h es) a' in
            rw (t, v)
              (All-append P e.lines (counted_lines g es) parts.0
                (All-narrow P f g h es s.1 parts.1))
        | inr v ↦ elim (Bool-cases (h e.date)) [
          | inl u ↦
              let a' : All P (e.lines ++ counted_lines h es) = rw (t, u) at a in
              let parts = All-parts P e.lines (counted_lines h es) a' in
              rw (t, v) (All-narrow P f g h es s.1 parts.1)
          | inr u ↦
              let a' : All P (counted_lines h es) = rw (t, u) at a in
              rw (t, v) (All-narrow P f g h es s.1 a')
        ]
      ]
    ]

earlier : (d f t : ℕ) → leb f d ≡ false → leb f t ≡ true → leb d t ≡ true
earlier d f t h k = ground arith

-- The days before a day, from that day to another, and to that one.
day-Splits :
    (F T : Date) (e : JournalEntry)
    → IsDay F
    → 1 ≤ F.year
    → leb_date F T ≡ true
    → IsDay e.date
    → Splits
        (λ d. leb_date d (day_before F))
        (λ d. leb_date F d && leb_date d T)
        (λ d. leb_date d T)
        e
day-Splits F T e hF h order he =
    let before = leb_date-day_before e.date F he hF h in
    elim (Bool-cases (leb_date F e.date)) [
      | inl t ↦ rw (before, t) (refl, refl)
      | inr f ↦
          let within : leb_date e.date T ≡ true = earlier (key e.date) (key F) (key T) f order in
          rw (before, f, within) (refl, refl)
    ]

pub All-day-Splits :
    (F T : Date) (es : List JournalEntry)
    → IsDay F
    → 1 ≤ F.year
    → leb_date F T ≡ true
    → All (λ e. IsDay e.date) es
    → All
        (Splits
          (λ d. leb_date d (day_before F))
          (λ d. leb_date F d && leb_date d T)
          (λ d. leb_date d T))
        es
All-day-Splits F T [] hF h order days = tt
All-day-Splits F T (e ∷ es) hF h order days =
    (day-Splits F T e hF h order days.0, All-day-Splits F T es hF h order days.1)

module _ (D : Decimals) where
  -- The cash at the end, from the cash at the start and the movements.
  pub cash_moves :
      (F T : Date) (db : Db)
      → All (λ e. IsDay e.date) db.journal_entries
      → IsDay F
      → 1 ≤ F.year
      → leb_date F T ≡ true
      → weigh loss is_cash_row (map (to_row D) (grouped_balances (λ d. leb_date d T) db))
        ≡ weigh loss is_cash_row
            (map (to_row D) (grouped_balances (λ d. leb_date d (day_before F)) db))
          +ℤ weigh loss is_cash_row
              (map (to_row D) (grouped_balances (λ d. leb_date F d && leb_date d T) db))
  unfolding grouped_balances
  cash_moves F T db days hF h order =
      let es = db.journal_entries in
      let f = λ (d : Date). leb_date d (day_before F) in
      let g = λ (d : Date). leb_date F d && leb_date d T in
      let h' = λ (d : Date). leb_date d T in
      let w = λ (x : Date → Bool). weigh-over D is_cash_account (counted_lines x es) db.accounts in
      let splits = All-day-Splits F T es hF h order days in
      let sums = λ (k : ℕ). counted-split f g h' k es splits in
      w h'
      ∙ over-split is_cash_account (counted_lines f es) (counted_lines g es) (counted_lines h' es)
          db.accounts sums
      ∙ sym (ap₂ (λ x y. x +ℤ y) (w f) (w g))
