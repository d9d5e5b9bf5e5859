-- ===== src/Posting/Effects.antt =====
-- What each transaction of Posting.Write has done when it succeeds.
use accounting_api.Common.{
  ℕ, ◌≡◌, refl, sym, subst, ◌∙◌, ap, Bool, true, false, Option, none, some, [], ◌∷◌, ◌++◌, ◌==◌,
  find, update_first, not-false, Bool-cases, inl, inr,
}
use accounting_api.Errors.{ok-injective, ok, err, >>=-eq-ok, throw_if-eq-ok, record_not_found}
use accounting_api.DocRef.{Text, build_doc_ref}
use accounting_api.Store.{Db, JournalEntry, is_some}
use accounting_api.Posting.{PreparedPosting, PreparedReversal, entry_by_id}
use accounting_api.Posting.Write.{
  Env, lines_check, is_number_taken, is_reversal_taken, insert_entry, assert_postable_period_in_tx,
  next_number, stamp_posted_in_tx, posted_entry, create_posted_entry_in_tx, reversal_entry,
  reversed_by, mark_reversed, reverse_in_tx,
}

-- A row was appended under the constraints.
pub record Inserted (e : JournalEntry) (db db' : Db) : Type 0 where
  pub fresh : find (λ o. o.id == e.id) db.journal_entries ≡ none
  pub number_free : is_number_taken e.fiscal_year e.entry_number db.journal_entries ≡ false
  pub reversal_free : is_reversal_taken e.reversal_of_id db.journal_entries ≡ false
  pub lawful : lines_check e.lines ≡ true
  pub db_is : db' ≡ record db { journal_entries = db.journal_entries ++ (e ∷ []) }

is_some-none {ℓ} : {A : Type ℓ} (o : Option A) → is_some o ≡ false → o ≡ none
is_some-none none h = refl
is_some-none (some a) h = cc

pub insert_entry-Inserted :
    (e : JournalEntry) (db db' : Db) → insert_entry e db ≡ ok db' → Inserted e db db'
unfolding insert_entry
insert_entry-Inserted e db db' h =
    let (id, h1) = throw_if-eq-ok _ _ _ h in
    let (number, h2) = throw_if-eq-ok _ _ _ h1 in
    let (rev, h3) = throw_if-eq-ok _ _ _ h2 in
    let (lawful, h4) = throw_if-eq-ok _ _ _ h3 in
    record {
      fresh = is_some-none _ id;
      number_free = number;
      reversal_free = rev;
      lawful = not-false _ lawful;
      db_is = sym (ok-injective h4);
    }

-- A number was drawn under the in-transaction guard.
pub record Stamped (period_id fiscal_year : ℕ) (allow_closed_year : Bool) (db : Db)
    (s : ℕ × Text × Db) : Type 0 where
  pub guarded : assert_postable_period_in_tx period_id fiscal_year allow_closed_year db ≡ ok tt
  pub number_is : s.0 ≡ (next_number fiscal_year db.journal_sequences).0
  pub ref_is : s.1 ≡ build_doc_ref "JE" fiscal_year s.0
  pub db_is :
      s.2 ≡ record db { journal_sequences = (next_number fiscal_year db.journal_sequences).1 }

pub stamp_posted_in_tx-Stamped :
    (period_id fiscal_year : ℕ) (allow_closed_year : Bool) (db : Db) (s : ℕ × Text × Db)
    → stamp_posted_in_tx period_id fiscal_year allow_closed_year db ≡ ok s
    → Stamped period_id fiscal_year allow_closed_year db s
unfolding stamp_posted_in_tx
stamp_posted_in_tx-Stamped p fy allow db s h =
    let (u, guarded, h1) = >>=-eq-ok (assert_postable_period_in_tx p fy allow db) _ h in
    let e = sym (ok-injective h1) in
    record {
      guarded = guarded;
      number_is = ap (λ t. t.0) e;
      ref_is = ap (λ t. t.1) e ∙ ap (build_doc_ref "JE" fy) (sym (ap (λ t. t.0) e));
      db_is = ap (λ t. t.2) e;
    }

-- A row was stamped and appended: all in terms of the database before and after.
pub record Booked (period_id fiscal_year : ℕ) (allow : Bool) (e : JournalEntry) (db db' : Db)
    : Type 0 where
  pub guarded : assert_postable_period_in_tx period_id fiscal_year allow db ≡ ok tt
  pub number_is : e.entry_number ≡ some (next_number fiscal_year db.journal_sequences).0
  pub fiscal_year_is : e.fiscal_year ≡ some fiscal_year
  pub fresh : find (λ o. o.id == e.id) db.journal_entries ≡ none
  pub reversal_free : is_reversal_taken e.reversal_of_id db.journal_entries ≡ false
  pub lawful : lines_check e.lines ≡ true
  pub entries_are : db'.journal_entries ≡ db.journal_entries ++ (e ∷ [])
  pub sequences_are : db'.journal_sequences ≡ (next_number fiscal_year db.journal_sequences).1

booked :
    (p fy : ℕ) (allow : Bool) (e : JournalEntry) (db db' : Db) (s : ℕ × Text × Db)
    → Stamped p fy allow db s
    → Inserted e s.2 db'
    → e.entry_number ≡ some s.0
    → e.fiscal_year ≡ some fy
    → Booked p fy allow e db db'
booked p fy allow e db db' s st ins num year =
    let es = ap (λ (d : Db). d.journal_entries) st.db_is in
    record {
      guarded = st.guarded;
      number_is = num ∙ ap some st.number_is;
      fiscal_year_is = year;
      fresh = rw es at ins.fresh;
      reversal_free = rw es at ins.reversal_free;
      lawful = ins.lawful;
      entries_are = ap (λ (d : Db). d.journal_entries) ins.db_is ∙ ap (λ xs. xs ++ (e ∷ [])) es;
      sequences_are =
          ap (λ (d : Db). d.journal_sequences) ins.db_is
          ∙ ap (λ (d : Db). d.journal_sequences) st.db_is;
    }

-- A posted entry carries the lines that were prepared.
pub create_posted_entry_in_tx-Booked :
    (env : Env) (prepared : PreparedPosting) (db db' : Db) (e : JournalEntry)
    → create_posted_entry_in_tx env prepared db ≡ ok (e, db')
    → (n : ℕ) × (ref : Text) × (e ≡ posted_entry env prepared n ref)
      × Booked prepared.period_id prepared.fiscal_year false e db db'
unfolding create_posted_entry_in_tx posted_entry
create_posted_entry_in_tx-Booked env prepared db db' e h =
    let (s, hs, h1) =
      >>=-eq-ok (stamp_posted_in_tx prepared.period_id prepared.fiscal_year false db) _ h in
    let entry = posted_entry env prepared s.0 s.1 in
    let (d, hd, h2) = >>=-eq-ok (insert_entry entry s.2) _ h1 in
    let same : entry ≡ e = ap (λ t. t.0) (ok-injective h2) in
    let ins : Inserted entry s.2 db' =
      subst (Inserted entry s.2) (ap (λ t. t.1) (ok-injective h2))
        (insert_entry-Inserted entry s.2 d hd) in
    (
      s.0,
      s.1,
      sym same,
      subst (λ x. Booked prepared.period_id prepared.fiscal_year false x db db') same
          (booked prepared.period_id prepared.fiscal_year false entry db db' s
            (stamp_posted_in_tx-Stamped prepared.period_id prepared.fiscal_year false db s hs) ins
            refl refl),
    )

mark_reversed-eq-ok :
    (id reversal_id : ℕ) (db db' : Db)
    → mark_reversed id reversal_id db ≡ ok db'
    → (is_some (find (entry_by_id id) db.journal_entries) ≡ true)
      × (db' ≡ record db {
        journal_entries =
            update_first (entry_by_id id) (reversed_by reversal_id) db.journal_entries;
      })
unfolding mark_reversed
mark_reversed-eq-ok id reversal_id db db' h =
    elim (Bool-cases (is_some (find (entry_by_id id) db.journal_entries))) [
      | inl t ↦ (t, sym (ok-injective (rw t at h)))
      | inr f ↦ let bad : err (record_not_found "journal_entries") ≡ ok db' = rw f at h in cc
    ]

-- A reversal is booked, and then the original is marked: `db1` is the database in between.
pub reverse_in_tx-Booked :
    (env : Env) (prepared : PreparedReversal) (db db' : Db) (e : JournalEntry)
    → reverse_in_tx env prepared db ≡ ok (e, db')
    → (n : ℕ) × (ref : Text) × (e ≡ reversal_entry env prepared n ref)
      × (db1 : Db) × Booked prepared.period_id prepared.fiscal_year prepared.allow_closed_year e db
          db1
      × (is_some (find (entry_by_id prepared.original.id) db1.journal_entries) ≡ true)
      × (db'.journal_entries
          ≡ update_first (entry_by_id prepared.original.id) (reversed_by e.id) db1.journal_entries)
      × (db'.journal_sequences ≡ db1.journal_sequences)
unfolding reverse_in_tx reversal_entry
reverse_in_tx-Booked env prepared db db' e h =
    let p = prepared.period_id in
    let fy = prepared.fiscal_year in
    let allow = prepared.allow_closed_year in
    let (s, hs, h1) = >>=-eq-ok (stamp_posted_in_tx p fy allow db) _ h in
    let entry = reversal_entry env prepared s.0 s.1 in
    let (d, hd, h2) = >>=-eq-ok (insert_entry entry s.2) _ h1 in
    let (d2, hd2, h3) = >>=-eq-ok (mark_reversed prepared.original.id entry.id d) _ h2 in
    let same : entry ≡ e = ap (λ t. t.0) (ok-injective h3) in
    let marked = mark_reversed-eq-ok prepared.original.id entry.id d d2 hd2 in
    let final : d2 ≡ db' = ap (λ t. t.1) (ok-injective h3) in
    (
      s.0,
      s.1,
      sym same,
      d,
      subst (λ x. Booked p fy allow x db d) same
          (booked p fy allow entry db d s (stamp_posted_in_tx-Stamped p fy allow db s hs)
            (insert_entry-Inserted entry s.2 d hd) refl refl),
      marked.0,
      ap (λ (x : Db). x.journal_entries) (sym final ∙ marked.1)
          ∙ ap
              (λ (x : JournalEntry).
                update_first (entry_by_id prepared.original.id) (reversed_by x.id)
                  d.journal_entries)
              same,
      ap (λ (x : Db). x.journal_sequences) (sym final ∙ marked.1),
    )
