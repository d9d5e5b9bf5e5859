-- ===== src/Posting/Rules.antt =====
-- The rules of a posting, beside the code of `preparePosting`
-- (src/ledger/posting/posting.service.ts).
use accounting_api.Common.{
  ℕ, ◌≤◌, ◌≡◌, ◌≢◌, ◌↔◌, ◌⊎◌, inl, inr, refl, Bool, true, false, ◌&&◌, ◌==◌, ==_iff, some, List, [],
  ◌∷◌, length, find, All, Bool-cases, leb, leb→le, le→leb, arith,
}
use accounting_api.Dates.{Date, key, truncate_to_utc_day, fiscal_year_for_date}
use accounting_api.Store.{
  Db, Account, AccountingPeriod, YearEndClosing, CompanySettings, is_open, is_closed, is_manual,
  is_some, is_none, PeriodStatus, open_period, shut_period, CloseStatus, open_year, closed_year,
  JournalSourceType, manual, opening, reversal, sales_invoice, purchase_bill, payment, closing,
}
use accounting_api.Periods
use accounting_api.Posting.{PostEntryInput, PostLineInput}
use accounting_api.Posting.Balanced.{OneSided, debits, credits}

-- Some element of a list.
abbrev pub Exists : {A : Type 0} → (A → Type 0) → List A → Type 0
Exists P [] = ⊥
Exists P (x ∷ xs) = P x ⊎ Exists P xs

-- An account that lines may be on.
abbrev pub IsPostable : Db → ℕ → Type 0
IsPostable db id =
    (a : Account) × (find (λ (b : Account). (b.id == id) && is_none b.deleted_at) db.accounts
      ≡ some a)
    × (a.is_postable ≡ true)
    × (a.is_active ≡ true)

-- An open period that the date's day lies in.
abbrev pub IsOpenOn : Date → AccountingPeriod → Type 0
IsOpenOn date q =
    (q.status ≡ open_period)
    × (key q.start_date ≤ key (truncate_to_utc_day date))
    × (key (truncate_to_utc_day date) ≤ key q.end_date)

abbrev pub IsOtherOrOpen : ℕ → YearEndClosing → Type 0
IsOtherOrOpen fiscal_year c = (c.fiscal_year ≢ fiscal_year) ⊎ (c.status ≡ open_year)

-- The rules of a posting.
pub record MayPost (settings : CompanySettings) (input : PostEntryInput) (posted_by : ℕ) (db : Db)
    : Type 0 where
  pub enough_lines : 2 ≤ length input.lines
  pub one_sided : All OneSided input.lines
  pub balanced : debits input.lines ≡ credits input.lines
  pub by_another :
      (settings.segregation_of_duties_enabled ≡ false)
      ⊎ ((input.source_type ≢ manual) ⊎ (posted_by ≢ input.created_by))
  pub in_open_period : Exists (IsOpenOn input.date) db.periods
  pub in_open_year :
      All
        (IsOtherOrOpen (fiscal_year_for_date input.date settings.fiscal_year_start_month))
        db.year_end_closings
  pub on_postable : All (λ (l : PostLineInput). IsPostable db l.account_id) input.lines

is_manual-manual : (source : JournalSourceType) → (is_manual source ≡ true) ↔ (source ≡ manual)
is_manual-manual manual = (λ h. refl, λ h. refl)
is_manual-manual opening = (λ h. cc, λ h. cc)
is_manual-manual reversal = (λ h. cc, λ h. cc)
is_manual-manual sales_invoice = (λ h. cc, λ h. cc)
is_manual-manual purchase_bill = (λ h. cc, λ h. cc)
is_manual-manual payment = (λ h. cc, λ h. cc)
is_manual-manual closing = (λ h. cc, λ h. cc)

pub segregation_iff :
    (on : Bool) (source : JournalSourceType) (by creator : ℕ)
    → ((on && (is_manual source && (by == creator))) ≡ false)
      ↔ ((on ≡ false) ⊎ ((source ≢ manual) ⊎ (by ≢ creator)))
segregation_iff false source by creator = (λ h. inl refl, λ h. refl)
segregation_iff true source by creator = ground (arith, ==_iff by creator, is_manual-manual source)

-- The day of a date, between two days.
within_iff : (a b c : ℕ) → ((leb a b && leb b c) ≡ true) ↔ ((a ≤ b) × (b ≤ c))
within_iff a b c = ground (arith, leb→le a b, leb→le b c, le→leb a b, le→leb b c)

is_open-open_period : (status : PeriodStatus) → (is_open status ≡ true) ↔ (status ≡ open_period)
is_open-open_period open_period = (λ h. refl, λ h. refl)
is_open-open_period shut_period = (λ h. cc, λ h. cc)

pub contains-IsOpenOn :
    (date : Date) (q : AccountingPeriod)
    → ((is_open q.status && Periods.contains date q) ≡ true) ↔ IsOpenOn date q
unfolding Periods.contains
contains-IsOpenOn date q =
    let day = key (truncate_to_utc_day date) in
    let within = within_iff (key q.start_date) day (key q.end_date) in
    let status = is_open-open_period q.status in
    elim (Bool-cases (is_open q.status)) [
      | inl t ↦ rw t (λ h. let w = within.0 h in (status.0 t, w.0, w.1), λ h. within.1 (h.1, h.2))
      | inr f ↦ rw f (λ h. cc, λ h. let t = status.1 h.0 in cc)
    ]

pub find-Exists :
    {A : Type 0} (p : A → Bool) (xs : List A) (a : A)
    → find p xs ≡ some a
    → Exists (λ x. (x ≡ a) × (p x ≡ true)) xs
find-Exists p [] a h = cc
find-Exists p (x ∷ xs) a h = elim (Bool-cases (p x)) [
  | inl t ↦ let e : some x ≡ some a = rw t at h in inl (some-injective e, t)
  | inr f ↦ inr (find-Exists p xs a (rw f at h))
]
  where
    some-injective : {A : Type 0} {x y : A} → some x ≡ some y → x ≡ y
    some-injective e = cc

pub Exists-find :
    {A : Type 0} (p : A → Bool) (xs : List A)
    → Exists (λ x. p x ≡ true) xs
    → (a : A) × (find p xs ≡ some a)
Exists-find p [] h = absurd h
Exists-find p (x ∷ xs) (inl t) = (x, rw t refl)
Exists-find p (x ∷ xs) (inr h) =
    let rest = Exists-find p xs h in
    elim (Bool-cases (p x)) [ inl t ↦ (x, rw t refl) | inr f ↦ (rest.0, rw f rest.1) ]

pub Exists-map :
    {A : Type 0} (P Q : A → Type 0)
    → ((x : A) → P x → Q x)
    → (xs : List A) → Exists P xs
    → Exists Q xs
Exists-map P Q f [] h = h
Exists-map P Q f (x ∷ xs) (inl h) = inl (f x h)
Exists-map P Q f (x ∷ xs) (inr h) = inr (Exists-map P Q f xs h)

closed_iff :
    (y fy : ℕ) (status : CloseStatus)
    → (((y == fy) && is_closed status) ≡ false) ↔ ((y ≢ fy) ⊎ (status ≡ open_year))
closed_iff y fy open_year = (λ h. inr refl, λ h. ground arith)
closed_iff y fy closed_year =
    let apart : closed_year ≢ open_year = λ e. cc in ground (arith, apart, ==_iff y fy)

pub year_iff :
    (fy : ℕ) (cs : List YearEndClosing)
    → (is_some (find (λ (c : YearEndClosing). (c.fiscal_year == fy) && is_closed c.status) cs)
        ≡ false)
      ↔ All (IsOtherOrOpen fy) cs
year_iff fy [] = (λ h. tt, λ h. refl)
year_iff fy (c ∷ cs) =
    let rest = year_iff fy cs in
    let here = closed_iff c.fiscal_year fy c.status in
    elim (Bool-cases ((c.fiscal_year == fy) && is_closed c.status)) [
      | inl t ↦ rw t (λ h. cc, λ h. let no = here.1 h.0 in cc)
      | inr f ↦ rw f (λ h. (here.0 f, rest.0 h), λ h. rest.1 h.1)
    ]
