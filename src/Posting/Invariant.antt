-- ===== src/Posting/Invariant.antt =====
-- The journal's invariant holds after any course of requests.
use accounting_api.Common.{
  ℕ, ◌≡◌, refl, sym, subst, ◌∙◌, ap, Bool, true, false, Option, some, none, List, [], ◌∷◌, map,
  find, find-holds, find_wider, arith, All-find,
}
use mathlib.Core.Path.{subst₂}
use accounting_api.Errors.{ok}
use accounting_api.Money.{Decimals}
use accounting_api.Store.{Db, JournalEntry, is_draft}
use accounting_api.Dates.{Date}
use accounting_api.Posting.{PreparedReversal, prepare_reversal, entry_by_id, assert_balanced}
use accounting_api.Posting.Balanced.{Fits}
use accounting_api.Posting.Write.{Env, reverse_in_tx, reversed_by, stored_lines, lines_check}
use accounting_api.Posting.Draft.{draft_by_id, deleted_at_time, promoted, to_input}
use accounting_api.Posting.Effects.{create_posted_entry_in_tx-Booked, reverse_in_tx-Booked}
use accounting_api.Posting.DraftEffects.{
  create_draft-Inserted, soft_delete_draft-eq-ok, is_some-cases, post_draft_in_tx-Promoted,
}
use accounting_api.Posting.Prepared.{
  prepare_posting-IsPrepared, prepare_reversal-original, prepare_draft-found,
}
use accounting_api.Posting.Rows.{row_by_id, IsBalanced, GoodRow}
use accounting_api.Posting.Ledger.{
  IsLedger, HasUniqueIds, book-IsLedger, draft-IsLedger, update-IsLedger, number-IsLedger,
}
use accounting_api.Posting.History.{
  Later, here, post, reverse, write_draft, delete_draft, post_draft, other, Evolves, Evolves-append,
  Evolves-trans, promoted-id, promoted-number, promoted-fiscal_year, promoted-reversal_of_id,
  Later-Evolves,
}
use accounting_api.Posting.GoodRows.{
  stored-IsBalanced, swapped-IsBalanced, to_input-IsBalanced, IsEntered-of, draft_of,
  not_draft_of_posted, posted-GoodRow, reversal-GoodRow, draft-GoodRow, draft_entry-number,
  reversed_by-GoodRow, deleted-GoodRow, promoted-GoodRow,
}

-- A row found by its id among those that are not deleted is the row of that id.
row_of_entry :
    (es : List JournalEntry) (id : ℕ) (a : JournalEntry)
    → HasUniqueIds es
    → find (entry_by_id id) es ≡ some a
    → find (row_by_id id) es ≡ some a
row_of_entry es id a u h =
    find_wider (entry_by_id id) (row_by_id id) (λ x t. ground arith) a es (u id) h

row_of_draft :
    (es : List JournalEntry) (id : ℕ) (a : JournalEntry)
    → HasUniqueIds es
    → find (draft_by_id id) es ≡ some a
    → find (row_by_id id) es ≡ some a
row_of_draft es id a u h =
    find_wider (draft_by_id id) (row_by_id id) (λ x t. ground arith) a es (u id) h

-- What an earlier posted row has become is no draft.
later_not_draft :
    (es es' : List JournalEntry) (id : ℕ) (o a : JournalEntry)
    → Evolves es es'
    → HasUniqueIds es
    → HasUniqueIds es'
    → find (entry_by_id id) es ≡ some o
    → is_draft o.status ≡ false
    → find (entry_by_id id) es' ≡ some a
    → is_draft a.status ≡ false
later_not_draft es es' id o a ev u u' ho st ha =
    let (o', found, adv) = ev id o (row_of_entry es id o u ho) in
    let same : some o' ≡ some a = sym found ∙ row_of_entry es' id a u' ha in
    subst (λ (x : JournalEntry). is_draft x.status ≡ false) {x = o'} {y = a} (cc) (adv.no_draft st)

-- The id under which a row was found is its own.
id_of_entry :
    (es : List JournalEntry) (id : ℕ) (a : JournalEntry)
    → find (entry_by_id id) es ≡ some a
    → a.id ≡ id
id_of_entry es id a h = let t = find-holds (entry_by_id id) a es h in ground arith

draft_by_id_facts :
    (id : ℕ) (a : JournalEntry)
    → draft_by_id id a ≡ true
    → (a.deleted_at ≡ none) × (is_draft a.status ≡ true)
draft_by_id_facts id a h = ground arith

-- A reversal keeps the invariant: its lines are the swapped lines of an entry that was posted.
reverse-IsLedger :
    (db1 db2 db3 : Db) (env : Env) (id by : ℕ) (date : Option Date) (allow : Bool)
    (p : PreparedReversal) (e : JournalEntry)
    → IsLedger db1.journal_entries db1.journal_sequences
    → Evolves db1.journal_entries db2.journal_entries
    → IsLedger db2.journal_entries db2.journal_sequences
    → prepare_reversal id by date allow db1 ≡ ok p
    → reverse_in_tx env p db2 ≡ ok (e, db3)
    → IsLedger db3.journal_entries db3.journal_sequences
reverse-IsLedger db1 db2 db3 env id by date allow p e v1 ev v2 hp h =
    let o = p.original in
    let (n, ref, same, mid, b, there, es, seqs) = reverse_in_tx-Booked env p db2 db3 e h in
    let (found, st) = prepare_reversal-original id by date allow db1 p hp in
    let not_draft = not_draft_of_posted o.status st in
    let o_good = All-find GoodRow (entry_by_id id) o db1.journal_entries v1.rows found in
    let good : GoodRow e = subst GoodRow (sym same) (
      reversal-GoodRow env p n ref
        (subst (λ (x : JournalEntry). lines_check x.lines ≡ true) same b.lawful)
        (swapped-IsBalanced o.lines
          ((IsEntered-of o.status o not_draft o_good.as_status).double_entry))) in
    let vmid : IsLedger mid.journal_entries mid.journal_sequences =
      subst₂ IsLedger (sym b.entries_are) (sym b.sequences_are) (
        book-IsLedger db2.journal_entries db2.journal_sequences v2 p.fiscal_year e b.number_is
          b.fiscal_year_is b.fresh b.reversal_free good) in
    let evmid : Evolves db1.journal_entries mid.journal_entries = Evolves-trans _ _ _ ev (
      subst (Evolves db2.journal_entries) (sym b.entries_are)
        (Evolves-append db2.journal_entries (e ∷ []))) in
    let (a, ha) = is_some-cases _ there in
    let own = sym (id_of_entry db1.journal_entries id o found) in
    let a_not_draft =
      later_not_draft db1.journal_entries mid.journal_entries o.id o a evmid v1.unique vmid.unique
        (subst (λ i. find (entry_by_id i) db1.journal_entries ≡ some o) own found) not_draft ha in
    let a_good = All-find GoodRow (entry_by_id o.id) a mid.journal_entries vmid.rows ha in
    subst₂ IsLedger (sym es) (sym seqs) (
      update-IsLedger mid.journal_entries mid.journal_sequences vmid (entry_by_id o.id)
        (reversed_by e.id) a ha (λ x. refl) (reversed_by-GoodRow e.id a a_good a_not_draft) refl
        refl refl)

module _ (D : Decimals) where
  -- The lines that a draft had when it was checked are those that it is posted with.
  draft_lines-IsBalanced :
      (es es' : List JournalEntry) (id : ℕ) (e a : JournalEntry)
      → Evolves es es'
      → HasUniqueIds es
      → HasUniqueIds es'
      → find (entry_by_id id) es ≡ some e
      → Fits D (map to_input e.lines)
      → assert_balanced D (map to_input e.lines) ≡ ok tt
      → find (draft_by_id id) es' ≡ some a
      → IsBalanced a.lines
  draft_lines-IsBalanced es es' id e a ev u u' he fits h ha =
      let (e', found, adv) = ev id e (row_of_entry es id e u he) in
      let same : some e' ≡ some a = sym found ∙ row_of_draft es' id a u' ha in
      subst (λ (x : JournalEntry). IsBalanced x.lines) {x = e'} {y = a} (cc)
        (subst IsBalanced (sym adv.same_lines) (to_input-IsBalanced D e.lines fits h))

  -- If the journal tables satisfy this at the start, then after any course of requests, in which
  -- the amounts given to be posted fit decimal.js's precision: ids are unique, the entry numbers of
  -- each fiscal year are exactly 1, 2, … up to the counter with each on one entry, no entry is
  -- reversed twice, and every entry that is no draft has at least two one-sided, non-negative lines
  -- whose debits and credits have the same exact sum.
  pub Later-IsLedger :
      {db db' : Db}
      → Later D db db'
      → IsLedger db.journal_entries db.journal_sequences
      → IsLedger db'.journal_entries db'.journal_sequences
  Later-IsLedger (here e) v =
      subst (λ (d : Db). IsLedger d.journal_entries d.journal_sequences) (sym e) v
  Later-IsLedger (post {db1 = db1} {db2 = db2} {db3 = db3} r s env input by p e fits hp h) v =
      let v2 = Later-IsLedger s (Later-IsLedger r v) in
      let (n, ref, same, b) = create_posted_entry_in_tx-Booked env p db2 db3 e h in
      let checked = prepare_posting-IsPrepared D input by db1 p hp in
      let balanced : IsBalanced (stored_lines 1 p.input.lines) =
        subst (λ i. IsBalanced (stored_lines 1 i.lines)) (sym checked.input_is)
          (stored-IsBalanced D 1 input.lines fits checked.balanced) in
      let good : GoodRow e = subst GoodRow (sym same) (
        posted-GoodRow env p n ref
          (subst (λ (x : JournalEntry). lines_check x.lines ≡ true) same b.lawful) balanced) in
      subst₂ IsLedger (sym b.entries_are) (sym b.sequences_are) (
        book-IsLedger db2.journal_entries db2.journal_sequences v2 p.fiscal_year e b.number_is
          b.fiscal_year_is b.fresh b.reversal_free good)
  Later-IsLedger (reverse {db1 = db1} {db2 = db2} {db3 = db3} r s env id by date allow p e hp h) v =
      let v1 = Later-IsLedger r v in
      reverse-IsLedger db1 db2 db3 env id by date allow p e v1 (Later-Evolves D s)
        (Later-IsLedger s v1) hp h
  Later-IsLedger (write_draft {db1 = db1} {db2 = db2} r env input e h) v =
      let (same, ins) = create_draft-Inserted env input db1 db2 e h in
      let entries = ap (λ (d : Db). d.journal_entries) ins.db_is in
      let seqs = ap (λ (d : Db). d.journal_sequences) ins.db_is in
      let good : GoodRow e = subst GoodRow (sym same) (
        draft-GoodRow env input
          (subst (λ (x : JournalEntry). lines_check x.lines ≡ true) same ins.lawful)) in
      subst₂ IsLedger (sym entries) (sym seqs) (
        draft-IsLedger db1.journal_entries db1.journal_sequences (Later-IsLedger r v) e
          (ap (λ (x : JournalEntry). x.entry_number) same ∙ draft_entry-number env input) ins.fresh
          ins.reversal_free good)
  Later-IsLedger (delete_draft {db1 = db1} {db2 = db2} r id now h) v =
      let v1 = Later-IsLedger r v in
      let (a, found, same) = soft_delete_draft-eq-ok id now db1 db2 h in
      let facts =
        draft_by_id_facts id a (find-holds (draft_by_id id) a db1.journal_entries found) in
      subst₂ IsLedger (sym (ap (λ (d : Db). d.journal_entries) same))
        (sym (ap (λ (d : Db). d.journal_sequences) same))
        (update-IsLedger db1.journal_entries db1.journal_sequences v1 (draft_by_id id)
          (deleted_at_time now) a found (λ x. refl)
          (deleted-GoodRow now a
            (All-find GoodRow (draft_by_id id) a db1.journal_entries v1.rows found) facts.1)
          refl refl refl)
  Later-IsLedger (post_draft {db1 = db1} {db2 = db2} {db3 = db3} r s now id by p fits hp h) v =
      let v1 = Later-IsLedger r v in
      let v2 = Later-IsLedger s v1 in
      let b = post_draft_in_tx-Promoted now p db2 db3 h in
      let (e, found, checked, same_id) = prepare_draft-found D id by db1 p hp in
      let a = b.row in
      let facts =
        draft_by_id_facts p.draft_id a
          (find-holds (draft_by_id p.draft_id) a db2.journal_entries b.found) in
      let found' = subst (λ i. find (draft_by_id i) db2.journal_entries ≡ some a) same_id b.found in
      let balanced =
        draft_lines-IsBalanced db1.journal_entries db2.journal_entries id e a (Later-Evolves D s)
          v1.unique v2.unique found (fits e found) checked found' in
      let good = All-find GoodRow (draft_by_id p.draft_id) a db2.journal_entries v2.rows b.found in
      subst₂ IsLedger (sym b.entries_are) (sym b.sequences_are) (
        number-IsLedger db2.journal_entries db2.journal_sequences v2 (draft_by_id p.draft_id)
          (promoted now p b.number b.ref) a b.found (promoted-id now p b.number b.ref)
          (promoted-GoodRow now p b.number b.ref a good facts.0 balanced)
          (promoted-reversal_of_id now p b.number b.ref a) p.fiscal_year
          (draft_of a.status a facts.1 good.as_status).0
          (promoted-number now p b.number b.ref a ∙ ap some b.number_is)
          (promoted-fiscal_year now p b.number b.ref a))
  Later-IsLedger (other r es seqs) v = subst₂ IsLedger (sym es) (sym seqs) (Later-IsLedger r v)

  -- What is posted stays: an entry that is no draft is still there after any course of requests, with
  -- the same lines, date, number and fiscal year, and is no draft again.
  pub Later-kept :
      {db db' : Db} (id : ℕ) (e : JournalEntry)
      → Later D db db'
      → find (row_by_id id) db.journal_entries ≡ some e
      → is_draft e.status ≡ false
      → (e' : JournalEntry) × (find (row_by_id id) db'.journal_entries ≡ some e')
        × (e'.lines ≡ e.lines)
        × (e'.date ≡ e.date)
        × (e'.entry_number ≡ e.entry_number)
        × (e'.fiscal_year ≡ e.fiscal_year)
        × (is_draft e'.status ≡ false)
  Later-kept id e r h st =
      let (e', found, adv) = Later-Evolves D r id e h in
      (
        e',
        found,
        adv.same_lines,
        adv.same_date,
        adv.same_number st,
        adv.same_year st,
        adv.no_draft st,
      )
