-- ===== src/Partners.antt =====
-- Business partners (src/invoicing/business-partners.service.ts), under the soft-delete extension of
-- the database client (src/common/prisma/soft-delete.extension.ts): reads and updates pass over a
-- deleted row, and a tombstone frees its code. The contact columns are left out.
use accounting_api.Common.{
  ℕ, Bool, true, false, ◌&&◌, not, Option, none, some, List, [], ◌∷◌, ◌++◌, ◌==◌, find, or_else,
  update_first, if◌then◌else◌,
}
use accounting_api.Errors.{
  Result, ok, err, ◌>>=◌, ◌>>◌, throw_if, or_throw, validation_failed, not_found, conflict,
  record_not_found,
}
use accounting_api.DocRef.{Text, same_text, tombstone_value}
use accounting_api.Store.{Timestamp, is_none, is_some}

pub record BusinessPartner : Type 0 where
  pub id : ℕ
  pub code : Text
  pub name : Text
  pub is_customer : Bool
  pub is_vendor : Bool
  pub is_active : Bool
  pub deleted_at : Option Timestamp

pub record CreatePartnerInput : Type 0 where
  pub code : Text
  pub name : Text
  pub is_customer : Option Bool
  pub is_vendor : Option Bool

pub record UpdatePartnerInput : Type 0 where
  pub name : Option Text
  pub is_customer : Option Bool
  pub is_vendor : Option Bool
  pub is_active : Option Bool

abbrev pub partner_by_id : ℕ → BusinessPartner → Bool
partner_by_id id p = (p.id == id) && is_none p.deleted_at

unfoldable pub assert_role : Bool → Bool → Result (Unit {0})
assert_role is_customer is_vendor =
    throw_if (not is_customer && not is_vendor)
      (validation_failed "A partner must be a customer and/or a vendor")

unfoldable pub find_by_id : ℕ → List BusinessPartner → Result BusinessPartner
find_by_id id partners = or_throw (find (partner_by_id id) partners) (not_found "Partner not found")

-- `businessPartner.create`, where the code is unique among all rows; `mapUniqueViolation` makes the
-- lost race a conflict as well.
unfoldable pub create :
    ℕ
    → CreatePartnerInput
    → List BusinessPartner
    → List BusinessPartner
    → Result (List BusinessPartner)
unfolding assert_role same_text
create new_id input seen partners = do
  assert_role (or_else input.is_customer false) (or_else input.is_vendor false)
  throw_if (is_some (find (λ p. same_text p.code input.code && is_none p.deleted_at) seen))
      (conflict "Partner code already exists")
  throw_if (is_some (find (λ (p : BusinessPartner). same_text p.code input.code) partners))
      (conflict "Partner code already exists")
  ok (
      partners
      ++ (record {
        id = new_id;
        code = input.code;
        name = input.name;
        is_customer = or_else input.is_customer false;
        is_vendor = or_else input.is_vendor false;
        is_active = true;
        deleted_at = none;
      }
          ∷ []))

-- `update` with an id, which misses a deleted row.
unfoldable pub update_row :
    ℕ → (BusinessPartner → BusinessPartner) → List BusinessPartner → Result (List BusinessPartner)
update_row id change partners =
    if is_some (find (partner_by_id id) partners)
    then ok (update_first (partner_by_id id) change partners)
    else err (record_not_found "business_partners")

unfoldable pub update :
    ℕ
    → UpdatePartnerInput
    → List BusinessPartner
    → List BusinessPartner
    → Result (List BusinessPartner)
unfolding find_by_id assert_role update_row
update id input seen partners = do
  current ← find_by_id id seen
  assert_role (or_else input.is_customer current.is_customer)
      (or_else input.is_vendor current.is_vendor)
  update_row id
      (λ p. record p {
        name = or_else input.name p.name;
        is_customer = or_else input.is_customer p.is_customer;
        is_vendor = or_else input.is_vendor p.is_vendor;
        is_active = or_else input.is_active p.is_active;
      })
      partners

unfoldable pub deactivate :
    ℕ → List BusinessPartner → List BusinessPartner → Result (List BusinessPartner)
unfolding find_by_id update_row
deactivate id seen partners = do
  current ← find_by_id id seen
  update_row id (λ p. record p { is_active = false }) partners

-- `deletedBy` is left out.
unfoldable pub soft_delete :
    ℕ → Timestamp → List BusinessPartner → List BusinessPartner → Result (List BusinessPartner)
unfolding find_by_id update_row
soft_delete id now seen partners = do
  current ← find_by_id id seen
  update_row id (λ p. record p { code = tombstone_value current.code id; deleted_at = some now })
      partners
