-- ===== src/Posting/Ledger.antt =====
-- The invariant of the two journal tables, and that each kind of write keeps it.
use accounting_api.Common.{
  ℕ, ◌+◌, ◌≤◌, ◌≡◌, ◌∙◌, Bool, true, false, ◌&&◌, Option, none, some, List, [], ◌∷◌, ◌++◌, ◌==◌,
  leb, ltb, if◌then◌else◌, find, update_first, count, All, All-append, All-update_found,
  count-append, count-update_first, count_of_find-none, arith, ==_iff,
}
use accounting_api.Sequence.{read_number}
use accounting_api.Sequence.Counter.{next_sequence_number_lem}
use accounting_api.Store.{JournalEntry, Sequences, is_some, holds}
use accounting_api.Posting.Write.{numbered, reverses, is_reversal_taken, next_number}
use accounting_api.Posting.Rows.{row_by_id, GoodRow}

-- The number that the next entry of a fiscal year gets.
unfoldable pub next_of : ℕ → Sequences → ℕ
next_of fiscal_year seqs = read_number (λ a b. a == b) fiscal_year seqs

pub next_number_lem :
    (fiscal_year : ℕ) (seqs : Sequences)
    → ((next_number fiscal_year seqs).0 ≡ next_of fiscal_year seqs)
      × ((fy : ℕ)
          → next_of fy (next_number fiscal_year seqs).1
            ≡ (if fiscal_year == fy then next_of fiscal_year seqs + 1 else next_of fy seqs))
unfolding next_number next_of
next_number_lem fy seqs = next_sequence_number_lem (λ a b. a == b) ==_iff fy seqs

-- The numbers of a fiscal year are 1, 2, … up to the counter, each on exactly one entry.
abbrev pub IsGapless : List JournalEntry → Sequences → Type 0
IsGapless es seqs =
    (fy n : ℕ) → count (numbered fy n) es ≡ (if leb 1 n && ltb n (next_of fy seqs) then 1 else 0)

abbrev pub HasUniqueIds : List JournalEntry → Type 0
HasUniqueIds es = (id : ℕ) → count (row_by_id id) es ≤ 1

pub record IsLedger (es : List JournalEntry) (seqs : Sequences) : Type 0 where
  pub unique : HasUniqueIds es
  pub started : (fy : ℕ) → 1 ≤ next_of fy seqs
  pub gapless : IsGapless es seqs
  pub once : (id : ℕ) → count (reverses id) es ≤ 1
  pub rows : All GoodRow es

find_is_none :
    (es : List JournalEntry) (id : ℕ)
    → is_some (find (reverses id) es) ≡ false
    → find (reverses id) es ≡ none
find_is_none es id h = ground arith

-- An entry that is not yet reversed has no reversal.
not_reversed :
    (es : List JournalEntry) (o : Option ℕ) (id : ℕ)
    → is_reversal_taken o es ≡ false
    → holds o id ≡ true
    → count (reverses id) es ≡ 0
unfolding is_reversal_taken
not_reversed es none id h t = cc
not_reversed es (some k) id h t =
    let e : k ≡ id = (==_iff k id).0 t in
    count_of_find-none (reverses id) es (find_is_none es id (rw e at h))

module _ (es : List JournalEntry) (seqs : Sequences) (v : IsLedger es seqs) where
  -- A fresh row keeps ids unique.
  pub unique-append :
      (e : JournalEntry) → find (λ o. o.id == e.id) es ≡ none → HasUniqueIds (es ++ (e ∷ []))
  unique-append e fresh id = ground (
    arith,
    count-append (row_by_id id) es (e ∷ []),
    v.unique id,
    count_of_find-none (row_by_id e.id) es,
  )

  -- Nor is an entry reversed by two.
  once-append :
      (e : JournalEntry)
      → is_reversal_taken e.reversal_of_id es ≡ false
      → (id : ℕ) → count (reverses id) (es ++ (e ∷ [])) ≤ 1
  once-append e free id =
      rw (count-append (reverses id) es (e ∷ []))
        (ground (arith, v.once id, not_reversed es e.reversal_of_id id free))

  -- A booked row takes the next number of its fiscal year.
  pub book-IsLedger :
      (fy : ℕ) (e : JournalEntry)
      → e.entry_number ≡ some (next_number fy seqs).0
      → e.fiscal_year ≡ some fy
      → find (λ o. o.id == e.id) es ≡ none
      → is_reversal_taken e.reversal_of_id es ≡ false
      → GoodRow e
      → IsLedger (es ++ (e ∷ [])) (next_number fy seqs).1
  book-IsLedger fy e num year fresh free good =
      let law = next_number_lem fy seqs in
      record {
        unique = unique-append e fresh;
        started = λ k. ground (arith, law.1 k, v.started k, v.started fy);
        gapless = λ k n.
            count-append (numbered k n) es (e ∷ [])
            ∙ ground (arith, v.gapless k n, law.0, law.1 k, v.started fy);
        once = once-append e free;
        rows = All-append GoodRow es (e ∷ []) v.rows (good, tt);
      }

  -- A draft takes none.
  pub draft-IsLedger :
      (e : JournalEntry)
      → e.entry_number ≡ none
      → find (λ o. o.id == e.id) es ≡ none
      → is_reversal_taken e.reversal_of_id es ≡ false
      → GoodRow e
      → IsLedger (es ++ (e ∷ [])) seqs
  draft-IsLedger e num fresh free good = record {
    unique = unique-append e fresh;
    started = v.started;
    gapless = λ k n. count-append (numbered k n) es (e ∷ []) ∙ ground (arith, v.gapless k n);
    once = once-append e free;
    rows = All-append GoodRow es (e ∷ []) v.rows (good, tt);
  }

  module _ (p : JournalEntry → Bool) (f : JournalEntry → JournalEntry) (a : JournalEntry)
      (found : find p es ≡ some a) (same_id : (x : JournalEntry) → (f x).id ≡ x.id)
      (good : GoodRow (f a)) (same_of : (f a).reversal_of_id ≡ a.reversal_of_id) where
    -- An update keeps ids unique.
    unique-update : HasUniqueIds (update_first p f es)
    unique-update id =
        ground (arith, count-update_first (row_by_id id) p f a es found, same_id a, v.unique id)

    once-update : (id : ℕ) → count (reverses id) (update_first p f es) ≤ 1
    once-update id = ground (arith, count-update_first (reverses id) p f a es found, v.once id)

    -- An update that leaves the number alone.
    pub update-IsLedger :
        (f a).entry_number ≡ a.entry_number
        → (f a).fiscal_year ≡ a.fiscal_year
        → IsLedger (update_first p f es) seqs
    update-IsLedger num year = record {
      unique = unique-update;
      started = v.started;
      gapless =
          λ k n. ground (arith, count-update_first (numbered k n) p f a es found, v.gapless k n);
      once = once-update;
      rows = All-update_found GoodRow p f a es found good v.rows;
    }

    -- An update that gives a row without a number the next one.
    pub number-IsLedger :
        (fy : ℕ)
        → a.entry_number ≡ none
        → (f a).entry_number ≡ some (next_number fy seqs).0
        → (f a).fiscal_year ≡ some fy
        → IsLedger (update_first p f es) (next_number fy seqs).1
    number-IsLedger fy before num year =
        let law = next_number_lem fy seqs in
        record {
          unique = unique-update;
          started = λ k. ground (arith, law.1 k, v.started k, v.started fy);
          gapless = λ k n. ground (
            arith,
            count-update_first (numbered k n) p f a es found,
            v.gapless k n,
            law.0,
            law.1 k,
            v.started fy,
          );
          once = once-update;
          rows = All-update_found GoodRow p f a es found good v.rows;
        }
