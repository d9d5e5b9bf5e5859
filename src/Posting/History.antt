-- ===== src/Posting/History.antt =====
-- Every course of requests, with the reads and the transaction of each at different times.
use accounting_api.Common.{
  ℕ, ◌≡◌, refl, sym, subst, ap, Bool, true, Option, some, List, [], ◌∷◌, ◌++◌, map, ◌==◌, find,
  find-append_some, find-update_first, update_first, inl, inr, arith,
}
use accounting_api.Errors.{ok}
use accounting_api.Money.{Decimals}
use accounting_api.Dates.{Date}
use accounting_api.Store.{Db, JournalEntry}
use accounting_api.Posting.{
  PostEntryInput, PreparedPosting, PreparedReversal, prepare_posting, prepare_reversal, entry_by_id,
}
use accounting_api.Posting.Balanced.{Fits}
use accounting_api.Posting.Write.{Env, create_posted_entry_in_tx, reverse_in_tx, reversed_by}
use accounting_api.Posting.Draft.{
  DraftInput, create_draft, soft_delete_draft, deleted_at_time, draft_by_id, PreparedDraft,
  prepare_draft, post_draft_in_tx, promoted, to_input,
}
use accounting_api.Posting.Effects.{create_posted_entry_in_tx-Booked, reverse_in_tx-Booked}
use accounting_api.Posting.DraftEffects.{
  create_draft-Inserted, soft_delete_draft-eq-ok, post_draft_in_tx-Promoted,
}
use accounting_api.Posting.Rows.{
  row_by_id, Advances, Advances-refl, Advances-trans, Advances-reversed_by,
  Advances-deleted_at_time, Advances-promoted,
}

-- `Later D db db'`: requests have led from `db` to `db'`. The checks of a request were made on some
-- database on the way, and its transaction runs on a later one. `other` is any request that leaves
-- the journal alone, such as the closing of a period.
pub data Later (D : Decimals) : Db → Db → Type 0 where
  here : {db db' : Db} → db' ≡ db → Later D db db'
  post :
      {db db1 db2 db3 : Db}
      → Later D db db1
      → Later D db1 db2
      → (env : Env) (input : PostEntryInput) (by : ℕ) (p : PreparedPosting) (e : JournalEntry)
      → Fits D input.lines
      → prepare_posting D input by db1 ≡ ok p
      → create_posted_entry_in_tx env p db2 ≡ ok (e, db3)
      → Later D db db3
  reverse :
      {db db1 db2 db3 : Db}
      → Later D db db1
      → Later D db1 db2
      → (env : Env) (id by : ℕ) (date : Option Date) (allow : Bool) (p : PreparedReversal)
        (e : JournalEntry)
      → prepare_reversal id by date allow db1 ≡ ok p
      → reverse_in_tx env p db2 ≡ ok (e, db3)
      → Later D db db3
  write_draft :
      {db db1 db2 : Db}
      → Later D db db1
      → (env : Env) (input : DraftInput) (e : JournalEntry)
      → create_draft env input db1 ≡ ok (e, db2)
      → Later D db db2
  delete_draft :
      {db db1 db2 : Db}
      → Later D db db1
      → (id now : ℕ) → soft_delete_draft id now db1 ≡ ok db2
      → Later D db db2
  post_draft :
      {db db1 db2 db3 : Db}
      → Later D db db1
      → Later D db1 db2
      → (now id by : ℕ) (p : PreparedDraft)
      → ((e : JournalEntry)
          → find (entry_by_id id) db1.journal_entries ≡ some e
          → Fits D (map to_input e.lines))
      → prepare_draft D id by db1 ≡ ok p
      → post_draft_in_tx now p db2 ≡ ok db3
      → Later D db db3
  other :
      {db db1 db2 : Db}
      → Later D db db1
      → db2.journal_entries ≡ db1.journal_entries
      → db2.journal_sequences ≡ db1.journal_sequences
      → Later D db db2

-- Each row of the first table is in the second, and has at most advanced.
abbrev pub Evolves : List JournalEntry → List JournalEntry → Type 0
Evolves es es' =
    (id : ℕ) (e : JournalEntry)
    → find (row_by_id id) es ≡ some e
    → (e' : JournalEntry) × (find (row_by_id id) es' ≡ some e') × Advances e e'

Evolves-refl : (es : List JournalEntry) → Evolves es es
Evolves-refl es id e h = (e, h, Advances-refl e)

pub Evolves-trans : (xs ys zs : List JournalEntry) → Evolves xs ys → Evolves ys zs → Evolves xs zs
Evolves-trans xs ys zs p q id e h =
    let (e1, h1, a1) = p id e h in
    let (e2, h2, a2) = q id e1 h1 in (e2, h2, Advances-trans e e1 e2 a1 a2)

pub Evolves-append : (es new : List JournalEntry) → Evolves es (es ++ new)
Evolves-append es new id e h = (e, find-append_some (row_by_id id) e es new h, Advances-refl e)

Evolves-update :
    (p : JournalEntry → Bool) (f : JournalEntry → JournalEntry) (es : List JournalEntry)
    → ((x : JournalEntry) → (f x).id ≡ x.id)
    → ((x : JournalEntry) → p x ≡ true → Advances x (f x))
    → Evolves es (update_first p f es)
Evolves-update p f es same advances id e h =
    elim (find-update_first (row_by_id id) p f e es (λ x. ap (λ i. i == id) (same x)) h) [
      | inl found ↦ (e, found, Advances-refl e)
      | inr (t, found) ↦ (f e, found, advances e t)
    ]

pub promoted-id :
    (now : ℕ) (p : PreparedDraft) (n : ℕ) (ref : List ℕ) (x : JournalEntry)
    → (promoted now p n ref x).id ≡ x.id
unfolding promoted
promoted-id now p n ref x = refl

pub promoted-number :
    (now : ℕ) (p : PreparedDraft) (n : ℕ) (ref : List ℕ) (x : JournalEntry)
    → (promoted now p n ref x).entry_number ≡ some n
unfolding promoted
promoted-number now p n ref x = refl

pub promoted-fiscal_year :
    (now : ℕ) (p : PreparedDraft) (n : ℕ) (ref : List ℕ) (x : JournalEntry)
    → (promoted now p n ref x).fiscal_year ≡ some p.fiscal_year
unfolding promoted
promoted-fiscal_year now p n ref x = refl

pub promoted-reversal_of_id :
    (now : ℕ) (p : PreparedDraft) (n : ℕ) (ref : List ℕ) (x : JournalEntry)
    → (promoted now p n ref x).reversal_of_id ≡ x.reversal_of_id
unfolding promoted
promoted-reversal_of_id now p n ref x = refl

-- Nothing that is posted is ever changed or lost: over any course of requests each journal row
-- stays, with its lines and date; once posted it keeps its number and year and never is a draft
-- again, and once reversed it stays reversed.
pub Later-Evolves :
    (D : Decimals) {db db' : Db} → Later D db db' → Evolves db.journal_entries db'.journal_entries
Later-Evolves D (here {db = db} e) =
    subst (Evolves db.journal_entries) (ap (λ (d : Db). d.journal_entries) (sym e))
      (Evolves-refl db.journal_entries)
Later-Evolves D
      (post {db = db} {db1 = db1} {db2 = db2} {db3 = db3} r s env input by p e fits hp h) =
    let (n, ref, same, b) = create_posted_entry_in_tx-Booked env p db2 db3 e h in
    Evolves-trans _ _ _ (Evolves-trans _ _ _ (Later-Evolves D r) (Later-Evolves D s)) (
      subst (Evolves db2.journal_entries) (sym b.entries_are)
        (Evolves-append db2.journal_entries (e ∷ [])))
Later-Evolves D (reverse {db2 = db2} {db3 = db3} r s env id by date allow p e hp h) =
    let (n, ref, same, mid, b, there, es, seqs) = reverse_in_tx-Booked env p db2 db3 e h in
    Evolves-trans _ _ _ (Evolves-trans _ _ _ (Later-Evolves D r) (Later-Evolves D s)) (
      Evolves-trans _ _ _
        (subst (Evolves db2.journal_entries) (sym b.entries_are)
          (Evolves-append db2.journal_entries (e ∷ [])))
        (subst (Evolves mid.journal_entries) (sym es) (
          Evolves-update (entry_by_id p.original.id) (reversed_by e.id) mid.journal_entries
            (λ x. refl) (λ x t. Advances-reversed_by e.id x))))
Later-Evolves D (write_draft {db1 = db1} {db2 = db2} r env input e h) =
    let (same, ins) = create_draft-Inserted env input db1 db2 e h in
    Evolves-trans _ _ _ (Later-Evolves D r) (
      subst (Evolves db1.journal_entries) (sym (ap (λ (d : Db). d.journal_entries) ins.db_is))
        (Evolves-append db1.journal_entries (e ∷ [])))
Later-Evolves D (delete_draft {db1 = db1} {db2 = db2} r id now h) =
    let (e, found, same) = soft_delete_draft-eq-ok id now db1 db2 h in
    Evolves-trans _ _ _ (Later-Evolves D r) (
      subst (Evolves db1.journal_entries) (sym (ap (λ (d : Db). d.journal_entries) same)) (
        Evolves-update (draft_by_id id) (deleted_at_time now) db1.journal_entries (λ x. refl)
          (λ x t. Advances-deleted_at_time now x)))
Later-Evolves D (post_draft {db2 = db2} {db3 = db3} r s now id by p fits hp h) =
    let b = post_draft_in_tx-Promoted now p db2 db3 h in
    Evolves-trans _ _ _ (Evolves-trans _ _ _ (Later-Evolves D r) (Later-Evolves D s)) (
      subst (Evolves db2.journal_entries) (sym b.entries_are) (
        Evolves-update (draft_by_id p.draft_id) (promoted now p b.number b.ref) db2.journal_entries
          (promoted-id now p b.number b.ref)
          (λ x t. Advances-promoted now p b.number b.ref x (ground arith))))
Later-Evolves D (other {db = db} r es seqs) =
    subst (Evolves db.journal_entries) (sym es) (Later-Evolves D r)
