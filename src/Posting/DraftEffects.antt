-- ===== src/Posting/DraftEffects.antt =====
-- What the operations on drafts do to the journal (src/ledger/posting/posting.service.ts,
-- src/ledger/journal/journal.service.ts).
use accounting_api.Common.{
  ℕ, ◌≡◌, refl, sym, subst, ◌∙◌, ap, true, false, Option, none, some, find, update_first, not-false,
  Bool-cases, inl, inr,
}
use accounting_api.Errors.{ok-injective, ok, err, >>=-eq-ok, throw_if-eq-ok, validation_failed}
use accounting_api.DocRef.{Text}
use accounting_api.Store.{Db, JournalEntry, is_some}
use accounting_api.Posting.Write.{
  Env, insert_entry, assert_postable_period_in_tx, next_number, stamp_posted_in_tx,
}
use accounting_api.Posting.Draft.{
  DraftInput, draft_entry, create_draft, draft_by_id, deleted_at_time, soft_delete_draft,
  PreparedDraft, promoted, post_draft_in_tx,
}
use accounting_api.Posting.Effects.{Inserted, insert_entry-Inserted, stamp_posted_in_tx-Stamped}

pub create_draft-Inserted :
    (env : Env) (input : DraftInput) (db db' : Db) (e : JournalEntry)
    → create_draft env input db ≡ ok (e, db')
    → (e ≡ draft_entry env input) × Inserted e db db'
unfolding create_draft
create_draft-Inserted env input db db' e h =
    let (d, hd, h1) = >>=-eq-ok (insert_entry (draft_entry env input) db) _ h in
    let same : draft_entry env input ≡ e = ap (λ t. t.0) (ok-injective h1) in
    (
      sym same,
      subst (λ x. Inserted x db db') same
          (subst (Inserted (draft_entry env input) db) (ap (λ t. t.1) (ok-injective h1))
            (insert_entry-Inserted (draft_entry env input) db d hd)),
    )

pub is_some-cases {ℓ} : {A : Type ℓ} (o : Option A) → is_some o ≡ true → (a : A) × (o ≡ some a)
is_some-cases none h = cc
is_some-cases (some a) h = (a, refl)

-- The draft that a deletion marks.
pub soft_delete_draft-eq-ok :
    (id now : ℕ) (db db' : Db)
    → soft_delete_draft id now db ≡ ok db'
    → (e : JournalEntry) × (find (draft_by_id id) db.journal_entries ≡ some e)
      × (db' ≡ record db {
        journal_entries = update_first (draft_by_id id) (deleted_at_time now) db.journal_entries;
      })
unfolding soft_delete_draft
soft_delete_draft-eq-ok id now db db' h =
    elim (Bool-cases (is_some (find (draft_by_id id) db.journal_entries))) [
      | inl t ↦ let (e, he) = is_some-cases _ t in (e, he, sym (ok-injective (rw t at h)))
      | inr f ↦
          let bad : err (validation_failed "Only a DRAFT entry can be deleted") ≡ ok db' =
            rw f at h in
          absurd (cc)
    ]

-- The draft that was promoted, and its number.
pub record Promoted (prepared : PreparedDraft) (now : ℕ) (db db' : Db) : Type 0 where
  pub row : JournalEntry
  pub number : ℕ
  pub ref : Text
  pub found : find (draft_by_id prepared.draft_id) db.journal_entries ≡ some row
  pub guarded :
      assert_postable_period_in_tx prepared.period_id prepared.fiscal_year false db ≡ ok tt
  pub number_is : number ≡ (next_number prepared.fiscal_year db.journal_sequences).0
  pub entries_are :
      db'.journal_entries
      ≡ update_first
          (draft_by_id prepared.draft_id)
          (promoted now prepared number ref)
          db.journal_entries
  pub sequences_are :
      db'.journal_sequences ≡ (next_number prepared.fiscal_year db.journal_sequences).1

pub post_draft_in_tx-Promoted :
    (now : ℕ) (prepared : PreparedDraft) (db db' : Db)
    → post_draft_in_tx now prepared db ≡ ok db'
    → Promoted prepared now db db'
unfolding post_draft_in_tx
post_draft_in_tx-Promoted now prepared db db' h =
    let (there, h1) = throw_if-eq-ok _ _ _ h in
    let (s, hs, h2) =
      >>=-eq-ok (stamp_posted_in_tx prepared.period_id prepared.fiscal_year false db) _ h1 in
    let (number_free, h3) = throw_if-eq-ok _ _ _ h2 in
    let (row, found) = is_some-cases _ (not-false _ there) in
    let st = stamp_posted_in_tx-Stamped prepared.period_id prepared.fiscal_year false db s hs in
    record {
      row = row;
      number = s.0;
      ref = s.1;
      found = found;
      guarded = st.guarded;
      number_is = st.number_is;
      entries_are = ap (λ (d : Db). d.journal_entries) (sym (ok-injective h3));
      sequences_are =
          ap (λ (d : Db). d.journal_sequences) (sym (ok-injective h3))
          ∙ ap (λ (d : Db). d.journal_sequences) st.db_is;
    }
