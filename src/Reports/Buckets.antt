-- ===== src/Reports/Buckets.antt =====
-- The sums of the aging report (src/reporting/aging.service.ts).
use accounting_api.Common.{
  ℕ, ◌+◌, ◌<◌, ◌≤◌, ◌≡◌, ap, ◌∙◌, Bool, true, false, ◌||◌, not, ◌==◌, Bool-cases, inl, inr, List,
  [], ◌∷◌, arith, if◌then◌else◌,
}
use accounting_api.Common.Sums.{sum_by, sum_by_ℕ}
use accounting_api.Common.Int.{ℤ, pos, abs, ◌+ℤ◌, ◌-ℤ◌, abs-+ℤ, abs--ℤ, int_laws, ltb_ℤ, plus_assoc}
use accounting_api.Money.{Decimals, Money, add, is_zero, is_negative}
use accounting_api.Money.Exact.{add-eq, subtract-eq}
use accounting_api.Dates.{Date}
use accounting_api.Reports.Parts.{when}
use accounting_api.Reports.Aging.{
  Bucket, Buckets, DocRow, AgingDocument, PartnerAging, AgingTotals, same_bucket, due_bucket,
  add_to_bucket, put_document, age_row, age_rows,
}

-- What is left to pay of a document.
abbrev pub owed : DocRow → ℤ
owed r = if ltb_ℤ r.paid_as_of r.total then r.total -ℤ r.paid_as_of else pos 0

-- The same, if the document is in a bucket.
abbrev pub owed_in : Date → Bucket → DocRow → ℤ
owed_in day b r = when (same_bucket b (due_bucket day r)) (owed r)

abbrev pub row_volume : DocRow → ℕ
row_volume r = abs r.total + abs r.paid_as_of

-- A bucket of all the partners.
abbrev pub partners_in : Bucket → List PartnerAging → ℤ
partners_in b groups = sum_by (λ (g : PartnerAging). g.buckets b) groups

abbrev pub partners_abs : Bucket → List PartnerAging → ℕ
partners_abs b groups = sum_by_ℕ (λ (g : PartnerAging). abs (g.buckets b)) groups

abs-owed : (r : DocRow) → abs (owed r) ≤ row_volume r
abs-owed r = elim (Bool-cases (ltb_ℤ r.paid_as_of r.total)) [
  | inl t ↦ rw t (abs--ℤ r.total r.paid_as_of)
  | inr f ↦ rw f (omega arith)
]

skipped_iff : (t p : ℤ) → (is_zero (t -ℤ p) || is_negative (t -ℤ p)) ≡ not (ltb_ℤ p t)
unfolding ◌-ℤ◌
skipped_iff t p = ground arith

abs-when : (b : Bool) (z : ℤ) → abs (when b z) ≤ abs z
abs-when true z = omega arith
abs-when false z = omega arith

add_nothing : (b : Bool) (z : ℤ) → z ≡ z +ℤ when b (pos 0)
add_nothing true z = omega int_laws
add_nothing false z = omega int_laws

-- No more than `v` in any bucket and in total.
pub record Fits (s : AgingTotals) (v : ℕ) : Type 0 where
  pub partners_fit : (b : Bucket) → partners_abs b s.by_partner ≤ v
  pub grand_fits : (b : Bucket) → abs (s.grand b) ≤ v
  pub total_fits : abs s.grand_total ≤ v

-- What the buckets and the total grow by.
pub record Grows (s s' : AgingTotals) (o : Bucket → ℤ) (t : ℤ) : Type 0 where
  pub partners_grow : (b : Bucket) → partners_in b s'.by_partner ≡ partners_in b s.by_partner +ℤ o b
  pub grand_grows : (b : Bucket) → s'.grand b ≡ s.grand b +ℤ o b
  pub total_grows : s'.grand_total ≡ s.grand_total +ℤ t

Fits-le : (s : AgingTotals) (v w : ℕ) → v ≤ w → Fits s v → Fits s w
Fits-le s v w h f = record {
  partners_fit = λ b. omega (arith, h, f.partners_fit b);
  grand_fits = λ b. omega (arith, h, f.grand_fits b);
  total_fits = omega (arith, h, f.total_fits);
}

Grows-zero :
    (s : AgingTotals) (in_bucket : Bucket → Bool)
    → Grows s s (λ b. when (in_bucket b) (pos 0)) (pos 0)
Grows-zero s in_bucket = record {
  partners_grow = λ b. add_nothing (in_bucket b) (partners_in b s.by_partner);
  grand_grows = λ b. add_nothing (in_bucket b) (s.grand b);
  total_grows = omega int_laws;
}

Grows-trans :
    {s s' s'' : AgingTotals} {o o' : Bucket → ℤ} {t t' : ℤ}
    → Grows s s' o t
    → Grows s' s'' o' t'
    → Grows s s'' (λ b. o b +ℤ o' b) (t +ℤ t')
Grows-trans {s} {s'} {s''} {o} {o'} {t} {t'} g h = record {
  partners_grow = λ b.
      h.partners_grow b
      ∙ ap (λ z. z +ℤ o' b) (g.partners_grow b)
      ∙ plus_assoc (partners_in b s.by_partner) (o b) (o' b);
  grand_grows = λ b.
      h.grand_grows b ∙ ap (λ z. z +ℤ o' b) (g.grand_grows b) ∙ plus_assoc (s.grand b) (o b) (o' b);
  total_grows = h.total_grows ∙ ap (λ z. z +ℤ t') g.total_grows ∙ plus_assoc s.grand_total t t';
}

module _ (D : Decimals) where
  add_to_bucket-when :
      (b c : Bucket) (m : Money) (buckets : Buckets)
      → abs (buckets b) + abs m < D.limit
      → add_to_bucket D c m buckets b ≡ buckets b +ℤ when (same_bucket b c) m
  unfolding add_to_bucket
  add_to_bucket-when b c m buckets h = elim (Bool-cases (same_bucket b c)) [
    | inl t ↦ rw t (add-eq D (buckets b) m h)
    | inr f ↦ rw f (omega int_laws)
  ]

  add_to_bucket-bound :
      (b c : Bucket) (m : Money) (buckets : Buckets)
      → abs (buckets b) + abs m < D.limit
      → abs (add_to_bucket D c m buckets b) ≤ abs (buckets b) + abs m
  add_to_bucket-bound b c m buckets h =
      let part = when (same_bucket b c) m in
      rw (add_to_bucket-when b c m buckets h)
        (omega (arith, abs-+ℤ (buckets b) part, abs-when (same_bucket b c) m))

  put_document-grows :
      (b : Bucket) (d : AgingDocument) (groups : List PartnerAging)
      → partners_abs b groups + abs d.outstanding < D.limit
      → (partners_in b (put_document D d groups)
          ≡ partners_in b groups +ℤ when (same_bucket b d.bucket) d.outstanding)
        × (partners_abs b (put_document D d groups) ≤ partners_abs b groups + abs d.outstanding)
  unfolding put_document sum_by sum_by_ℕ
  put_document-grows b d [] h =
      let fits : abs (pos 0) + abs d.outstanding < D.limit = omega (arith, h) in
      (
        rw (add_to_bucket-when b d.bucket d.outstanding (λ c. pos 0) fits) (omega int_laws),
        omega (arith, add_to_bucket-bound b d.bucket d.outstanding (λ c. pos 0) fits),
      )
  put_document-grows b d (g ∷ groups) h = elim (Bool-cases (g.partner_id == d.row.partner_id)) [
    | inl t ↦
        let fits : abs (g.buckets b) + abs d.outstanding < D.limit = omega (arith, h) in
        rw t (
          rw (add_to_bucket-when b d.bucket d.outstanding g.buckets fits) (omega int_laws),
          omega (arith, add_to_bucket-bound b d.bucket d.outstanding g.buckets fits),
        )
    | inr f ↦
        let ih = put_document-grows b d groups (omega (arith, h)) in
        rw f (rw ih.0 (omega int_laws), omega (arith, ih.1))
  ]

  -- The loop's body, without its test.
  abbrev entered : Date → DocRow → AgingTotals → Money → AgingTotals
  entered day r s outstanding = record {
    by_partner =
        put_document D (record { row = r; outstanding = outstanding; bucket = due_bucket day r })
          s.by_partner;
    grand = add_to_bucket D (due_bucket day r) outstanding s.grand;
    grand_total = add D s.grand_total outstanding;
  }

  age_row-entered :
      (day : Date) (r : DocRow) (s : AgingTotals)
      → row_volume r < D.limit
      → age_row D day r s ≡ (
          if not (ltb_ℤ r.paid_as_of r.total) then s else entered day r s (r.total -ℤ r.paid_as_of))
  unfolding age_row
  age_row-entered day r s h =
      ap (λ o. if is_zero o || is_negative o then s else entered day r s o)
        (subtract-eq D r.total r.paid_as_of h)
      ∙ ap (λ skip. if skip then s else entered day r s (r.total -ℤ r.paid_as_of))
          (skipped_iff r.total r.paid_as_of)

  entered-Grows :
      (day : Date) (r : DocRow) (s : AgingTotals) (v : ℕ) (o : Money)
      → Fits s v
      → v + abs o < D.limit
      → Grows s (entered day r s o) (λ b. when (same_bucket b (due_bucket day r)) o) o
        × Fits (entered day r s o) (v + abs o)
  entered-Grows day r s v o f h =
      let d : AgingDocument = record { row = r; outstanding = o; bucket = due_bucket day r } in
      let put =
        λ (b : Bucket). put_document-grows b d s.by_partner (omega (arith, h, f.partners_fit b)) in
      let room : (b : Bucket) → abs (s.grand b) + abs o < D.limit =
        λ b. omega (arith, h, f.grand_fits b) in
      let sum_exact = add-eq D s.grand_total o (omega (arith, h, f.total_fits)) in
      (
        record {
          partners_grow = λ b. (put b).0;
          grand_grows = λ b. add_to_bucket-when b (due_bucket day r) o s.grand (room b);
          total_grows = sum_exact;
        },
        record {
          partners_fit = λ b. omega (arith, (put b).1, f.partners_fit b);
          grand_fits = λ b.
              omega (
                arith,
                add_to_bucket-bound b (due_bucket day r) o s.grand (room b),
                f.grand_fits b,
              );
          total_fits = rw sum_exact (omega (arith, abs-+ℤ s.grand_total o, f.total_fits));
        },
      )

  age_row-Grows :
      (day : Date) (r : DocRow) (s : AgingTotals) (v : ℕ)
      → Fits s v
      → v + row_volume r < D.limit
      → Grows s (age_row D day r s) (λ b. owed_in day b r) (owed r)
        × Fits (age_row D day r s) (v + row_volume r)
  age_row-Grows day r s v f h =
      let bound = abs--ℤ r.total r.paid_as_of in
      rw (age_row-entered day r s (omega (arith, h)))
        (elim (Bool-cases (ltb_ℤ r.paid_as_of r.total)) [
          | inl t ↦
              let grown =
                entered-Grows day r s v (r.total -ℤ r.paid_as_of) f (omega (arith, h, bound)) in
              rw t (grown.0, Fits-le _ _ _ (omega (arith, bound)) grown.1)
          | inr n ↦
              rw n (
                Grows-zero s (λ b. same_bucket b (due_bucket day r)),
                Fits-le s v _ (omega arith) f,
              )
        ])

  pub age_rows-Grows :
      (day : Date) (rows : List DocRow) (s : AgingTotals) (v : ℕ)
      → Fits s v
      → v + sum_by_ℕ row_volume rows < D.limit
      → Grows s (age_rows D day rows s) (λ b. sum_by (owed_in day b) rows) (sum_by owed rows)
  unfolding age_rows sum_by sum_by_ℕ
  age_rows-Grows day [] s v f h = record {
    partners_grow = λ b. omega int_laws;
    grand_grows = λ b. omega int_laws;
    total_grows = omega int_laws;
  }
  age_rows-Grows day (r ∷ rows) s v f h =
      let step = age_row-Grows day r s v f (omega (arith, h)) in
      Grows-trans step.0
        (age_rows-Grows day rows (age_row D day r s) (v + row_volume r) step.1 (omega (arith, h)))
