-- ===== src/Posting/GoodRows.antt =====
-- Each write makes rows that fit the invariant.
use accounting_api.Common.{ℕ, ◌≡◌, refl, sym, ◌∙◌, true, false, none, List, map}
use accounting_api.Errors.{ok}
use accounting_api.Money.{Decimals}
use accounting_api.Store.{
  JournalEntry, JournalLine, JournalStatus, draft, posted, reversed, is_draft, is_posted,
}
use accounting_api.Posting.{PreparedPosting, PreparedReversal, assert_balanced, PostLineInput}
use accounting_api.Posting.Balanced.{Fits, assert_balanced_iff}
use accounting_api.Posting.Write.{
  Env, reversed_by, posted_entry, reversal_entry, lines_check, stored_lines, swapped_lines,
}
use accounting_api.Posting.Draft.{
  deleted_at_time, promoted, to_input, PreparedDraft, draft_entry, DraftInput,
}
use accounting_api.Posting.Rows.{
  IsBalanced, IsEntered, AsStatus, GoodRow, line_debits-stored_lines, line_credits-stored_lines,
  length-stored_lines, line_debits-swapped_lines, line_credits-swapped_lines, length-swapped_lines,
  debits-to_input, credits-to_input, length-to_input,
}

pub stored-IsBalanced :
    (D : Decimals) (n : ℕ) (ls : List PostLineInput)
    → Fits D ls
    → assert_balanced D ls ≡ ok tt
    → IsBalanced (stored_lines n ls)
stored-IsBalanced D n ls fits h =
    let (two, sides, same) = (assert_balanced_iff D ls fits).0 h in
    record {
      two_lines = rw (length-stored_lines n ls) two;
      balanced = line_debits-stored_lines n ls ∙ same ∙ sym (line_credits-stored_lines n ls);
    }

pub swapped-IsBalanced : (ls : List JournalLine) → IsBalanced ls → IsBalanced (swapped_lines ls)
swapped-IsBalanced ls b = record {
  two_lines = rw (length-swapped_lines ls) b.two_lines;
  balanced = line_debits-swapped_lines ls ∙ sym b.balanced ∙ sym (line_credits-swapped_lines ls);
}

pub to_input-IsBalanced :
    (D : Decimals) (ls : List JournalLine)
    → Fits D (map to_input ls)
    → assert_balanced D (map to_input ls) ≡ ok tt
    → IsBalanced ls
to_input-IsBalanced D ls fits h =
    let (two, sides, same) = (assert_balanced_iff D (map to_input ls) fits).0 h in
    record {
      two_lines = rw (← length-to_input ls) two;
      balanced = sym (debits-to_input ls) ∙ same ∙ credits-to_input ls;
    }

pub IsEntered-of :
    (s : JournalStatus) (e : JournalEntry) → is_draft s ≡ false → AsStatus s e → IsEntered e
IsEntered-of draft e h a = cc
IsEntered-of posted e h a = a
IsEntered-of reversed e h a = a

pub draft_of :
    (s : JournalStatus) (e : JournalEntry) → is_draft s ≡ true → AsStatus s e → AsStatus draft e
draft_of draft e h a = a
draft_of posted e h a = cc
draft_of reversed e h a = cc

pub not_draft_of_posted : (s : JournalStatus) → is_posted s ≡ true → is_draft s ≡ false
not_draft_of_posted draft h = cc
not_draft_of_posted posted h = refl
not_draft_of_posted reversed h = refl

pub posted-GoodRow :
    (env : Env) (p : PreparedPosting) (n : ℕ) (ref : List ℕ)
    → lines_check (posted_entry env p n ref).lines ≡ true
    → IsBalanced (stored_lines 1 p.input.lines)
    → GoodRow (posted_entry env p n ref)
unfolding posted_entry
posted-GoodRow env p n ref lawful b = record {
  lawful = lawful;
  as_status = record {
    has_number = refl;
    has_year = refl;
    has_time = refl;
    kept = refl;
    double_entry = b;
  };
}

pub reversal-GoodRow :
    (env : Env) (p : PreparedReversal) (n : ℕ) (ref : List ℕ)
    → lines_check (reversal_entry env p n ref).lines ≡ true
    → IsBalanced (swapped_lines p.original.lines)
    → GoodRow (reversal_entry env p n ref)
unfolding reversal_entry
reversal-GoodRow env p n ref lawful b = record {
  lawful = lawful;
  as_status = record {
    has_number = refl;
    has_year = refl;
    has_time = refl;
    kept = refl;
    double_entry = b;
  };
}

pub draft-GoodRow :
    (env : Env) (input : DraftInput)
    → lines_check (draft_entry env input).lines ≡ true
    → GoodRow (draft_entry env input)
unfolding draft_entry
draft-GoodRow env input lawful = record { lawful = lawful; as_status = (refl, refl) }

pub draft_entry-number :
    (env : Env) (input : DraftInput) → (draft_entry env input).entry_number ≡ none
unfolding draft_entry
draft_entry-number env input = refl

pub reversed_by-GoodRow :
    (id : ℕ) (a : JournalEntry) → GoodRow a → is_draft a.status ≡ false → GoodRow (reversed_by id a)
reversed_by-GoodRow id a g h =
    let e = IsEntered-of a.status a h g.as_status in
    record {
      lawful = g.lawful;
      as_status = record {
        has_number = e.has_number;
        has_year = e.has_year;
        has_time = e.has_time;
        kept = e.kept;
        double_entry = e.double_entry;
      };
    }

pub deleted-GoodRow :
    (now : ℕ) (a : JournalEntry)
    → GoodRow a
    → is_draft a.status ≡ true
    → GoodRow (deleted_at_time now a)
deleted-GoodRow now a g h = record {
  lawful = g.lawful;
  as_status = draft_again a.status (deleted_at_time now a) h (draft_of a.status a h g.as_status);
}
  where
    draft_again :
        (s : JournalStatus) (e : JournalEntry) → is_draft s ≡ true → AsStatus draft e → AsStatus s e
    draft_again draft e h a = a
    draft_again posted e h a = cc
    draft_again reversed e h a = cc

pub promoted-GoodRow :
    (now : ℕ) (p : PreparedDraft) (n : ℕ) (ref : List ℕ) (a : JournalEntry)
    → GoodRow a
    → a.deleted_at ≡ none
    → IsBalanced a.lines
    → GoodRow (promoted now p n ref a)
unfolding promoted
promoted-GoodRow now p n ref a g kept b = record {
  lawful = g.lawful;
  as_status = record {
    has_number = refl;
    has_year = refl;
    has_time = refl;
    kept = kept;
    double_entry = b;
  };
}
