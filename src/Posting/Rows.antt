-- ===== src/Posting/Rows.antt =====
-- The rows of the journal: what a draft and a posted entry look like, and how a row may change.
use accounting_api.Common.{
  ℕ, suc, ◌+◌, ◌≤◌, ◌≡◌, refl, ◌∙◌, ap, Bool, true, false, none, List, [], ◌∷◌, map, ◌==◌, length,
}
use accounting_api.Common.Int.{ℤ, ◌+ℤ◌}
use accounting_api.Money.Exact.{total}
use accounting_api.Store.{
  JournalEntry, JournalLine, JournalStatus, draft, posted, reversed, is_draft, is_some,
}
use accounting_api.Posting.{PostLineInput, debit_of, credit_of}
use accounting_api.Posting.Balanced.{debits, credits}
use accounting_api.Posting.Write.{lines_check, stored_lines, swapped_lines, reversed_by}
use accounting_api.Posting.Draft.{to_input, deleted_at_time, promoted, PreparedDraft}

abbrev pub row_by_id : ℕ → JournalEntry → Bool
row_by_id id e = e.id == id

abbrev pub line_debits : List JournalLine → ℤ
line_debits ls = total (map (λ l. l.debit) ls)

abbrev pub line_credits : List JournalLine → ℤ
line_credits ls = total (map (λ l. l.credit) ls)

-- The double entry of stored lines.
pub record IsBalanced (ls : List JournalLine) : Type 0 where
  pub two_lines : 2 ≤ length ls
  pub balanced : line_debits ls ≡ line_credits ls

-- An entry that counts towards the balances.
pub record IsEntered (e : JournalEntry) : Type 0 where
  pub has_number : is_some e.entry_number ≡ true
  pub has_year : is_some e.fiscal_year ≡ true
  pub has_time : is_some e.posted_at ≡ true
  pub kept : e.deleted_at ≡ none
  pub double_entry : IsBalanced e.lines

abbrev pub AsStatus : JournalStatus → JournalEntry → Type 0
AsStatus draft e = (e.entry_number ≡ none) × (e.posted_at ≡ none)
AsStatus posted e = IsEntered e
AsStatus reversed e = IsEntered e

pub record GoodRow (e : JournalEntry) : Type 0 where
  pub lawful : lines_check e.lines ≡ true
  pub as_status : AsStatus e.status e

-- How a row may change: a draft keeps its lines, and an entry that is no draft keeps everything but
-- its status, which goes from posted to reversed.
pub record Advances (e e' : JournalEntry) : Type 0 where
  pub same_id : e'.id ≡ e.id
  pub same_lines : e'.lines ≡ e.lines
  pub same_date : e'.date ≡ e.date
  pub same_number : is_draft e.status ≡ false → e'.entry_number ≡ e.entry_number
  pub same_year : is_draft e.status ≡ false → e'.fiscal_year ≡ e.fiscal_year
  pub no_draft : is_draft e.status ≡ false → is_draft e'.status ≡ false
  pub stays_reversed : e.status ≡ reversed → e'.status ≡ reversed

pub Advances-refl : (e : JournalEntry) → Advances e e
Advances-refl e = record {
  same_id = refl;
  same_lines = refl;
  same_date = refl;
  same_number = λ h. refl;
  same_year = λ h. refl;
  no_draft = λ h. h;
  stays_reversed = λ h. h;
}

pub Advances-trans : (a b c : JournalEntry) → Advances a b → Advances b c → Advances a c
Advances-trans a b c p q = record {
  same_id = q.same_id ∙ p.same_id;
  same_lines = q.same_lines ∙ p.same_lines;
  same_date = q.same_date ∙ p.same_date;
  same_number = λ h. q.same_number (p.no_draft h) ∙ p.same_number h;
  same_year = λ h. q.same_year (p.no_draft h) ∙ p.same_year h;
  no_draft = λ h. q.no_draft (p.no_draft h);
  stays_reversed = λ h. q.stays_reversed (p.stays_reversed h);
}

pub Advances-reversed_by : (id : ℕ) (e : JournalEntry) → Advances e (reversed_by id e)
Advances-reversed_by id e = record {
  same_id = refl;
  same_lines = refl;
  same_date = refl;
  same_number = λ h. refl;
  same_year = λ h. refl;
  no_draft = λ h. refl;
  stays_reversed = λ h. refl;
}

pub Advances-deleted_at_time : (now : ℕ) (e : JournalEntry) → Advances e (deleted_at_time now e)
Advances-deleted_at_time now e = record {
  same_id = refl;
  same_lines = refl;
  same_date = refl;
  same_number = λ h. refl;
  same_year = λ h. refl;
  no_draft = λ h. h;
  stays_reversed = λ h. h;
}

-- A promotion is of a draft.
pub Advances-promoted :
    (now : ℕ) (prepared : PreparedDraft) (n : ℕ) (ref : List ℕ) (e : JournalEntry)
    → is_draft e.status ≡ true
    → Advances e (promoted now prepared n ref e)
unfolding promoted
Advances-promoted now prepared n ref e d = record {
  same_id = refl;
  same_lines = refl;
  same_date = refl;
  same_number = λ h. absurd (cc);
  same_year = λ h. absurd (cc);
  no_draft = λ h. refl;
  stays_reversed = λ h. absurd (cc (ap is_draft h));
}

-- The lines that are stored have the sums of the lines that were given.
pub line_debits-stored_lines :
    (n : ℕ) (ls : List PostLineInput) → line_debits (stored_lines n ls) ≡ debits ls
unfolding stored_lines
line_debits-stored_lines n [] = refl
line_debits-stored_lines n (l ∷ ls) =
    ap (λ x. debit_of l +ℤ x) (line_debits-stored_lines (n + 1) ls)

pub line_credits-stored_lines :
    (n : ℕ) (ls : List PostLineInput) → line_credits (stored_lines n ls) ≡ credits ls
unfolding stored_lines
line_credits-stored_lines n [] = refl
line_credits-stored_lines n (l ∷ ls) =
    ap (λ x. credit_of l +ℤ x) (line_credits-stored_lines (n + 1) ls)

pub length-stored_lines : (n : ℕ) (ls : List PostLineInput) → length (stored_lines n ls) ≡ length ls
unfolding stored_lines
length-stored_lines n [] = refl
length-stored_lines n (l ∷ ls) = ap suc (length-stored_lines (n + 1) ls)

-- Swapped lines swap the sums.
pub line_debits-swapped_lines :
    (ls : List JournalLine) → line_debits (swapped_lines ls) ≡ line_credits ls
unfolding swapped_lines
line_debits-swapped_lines [] = refl
line_debits-swapped_lines (l ∷ ls) = ap (λ x. l.credit +ℤ x) (line_debits-swapped_lines ls)

pub line_credits-swapped_lines :
    (ls : List JournalLine) → line_credits (swapped_lines ls) ≡ line_debits ls
unfolding swapped_lines
line_credits-swapped_lines [] = refl
line_credits-swapped_lines (l ∷ ls) = ap (λ x. l.debit +ℤ x) (line_credits-swapped_lines ls)

pub length-swapped_lines : (ls : List JournalLine) → length (swapped_lines ls) ≡ length ls
unfolding swapped_lines
length-swapped_lines [] = refl
length-swapped_lines (l ∷ ls) = ap suc (length-swapped_lines ls)

-- A draft's lines go through `assertBalanced` as they are stored.
pub debits-to_input : (ls : List JournalLine) → debits (map to_input ls) ≡ line_debits ls
debits-to_input [] = refl
debits-to_input (l ∷ ls) = ap (λ x. l.debit +ℤ x) (debits-to_input ls)

pub credits-to_input : (ls : List JournalLine) → credits (map to_input ls) ≡ line_credits ls
credits-to_input [] = refl
credits-to_input (l ∷ ls) = ap (λ x. l.credit +ℤ x) (credits-to_input ls)

pub length-to_input : (ls : List JournalLine) → length (map to_input ls) ≡ length ls
length-to_input [] = refl
length-to_input (l ∷ ls) = ap suc (length-to_input ls)
