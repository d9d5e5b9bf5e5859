-- ===== src/Lib.antt =====
-- The core of the accounting API, a NestJS service over PostgreSQL that keeps a double-entry ledger
-- in rupiah: the money type, the fiscal calendar, the journal, the balances, the settlement of
-- invoices and bills, and the refresh tokens of its sessions.
--
-- Common holds lists, tables and integers over the native numbers. Errors has the classes of
-- src/common/errors/domain-errors.ts as values of a result type. Store has the rows of
-- prisma/schema.prisma, and the record Db of the ledger's tables. Then, with the part of the
-- repository that each file models:
--   Money        src/common/money/money.ts, as integers of ten-thousandths
--   Dates        src/common/dates/fiscal-year.ts and utc-day.ts
--   DocRef       src/common/db/doc-ref.ts; DocRef/Read reads a reference back
--   Sequence     src/common/db/sequence.ts, the gapless counters
--   Company      src/company/company.service.ts
--   Periods      src/ledger/periods/periods.service.ts
--   Posting      src/ledger/posting/: assertBalanced and the checks before a write; Posting/Rules the
--                rules of a posting, apart from the code; Posting/Write
--                the writes of posting.service.ts; Posting/Draft postDraft, and the drafts of
--                src/ledger/journal/journal.service.ts
--   Balances     src/ledger/balances/
--   Settlement   src/invoicing/payment-targets.ts, and the loops over allocations in
--                src/invoicing/payments.service.ts
--   Partners     src/invoicing/business-partners.service.ts and src/common/prisma/tombstone.ts
--   Invoicing    src/invoicing/document-number.service.ts and document-helpers.ts, with the tables
--                that the modules of src/invoicing/ share
--   Payments     src/invoicing/payments.service.ts; Payments/Lines the lines that an entry should have
--   Invoices     the sales invoices and purchase bills: taxed-document.service.ts,
--                document-posting.service.ts, document-presenter.ts and the two descriptors of
--                src/invoicing/
--   Journal      the requests of src/ledger/journal/journal.service.ts, and
--                src/ledger/document-lifecycle.service.ts
--   YearEnd      src/close/year-end-close.service.ts
--   Accounts     src/ledger/accounts/accounts.service.ts; Accounts/Seed chart-of-accounts.seed.ts
--   Tax          src/tax/tax.service.ts
--   TaxCodes     src/tax/tax-codes.service.ts and tax-codes.seed.ts
--   Idempotency  src/common/idempotency/: the service, and the interceptor around a handler
--   Reports      src/reporting/: income-statement.service.ts; Reports/BalanceSheet
--                balance-sheet.service.ts; Reports/CashFlow cash-flow.service.ts;
--                Reports/GeneralLedger general-ledger.service.ts;
--                Reports/Aging aging.service.ts
--   Sessions     src/auth/refresh-token.service.ts
--   Users        src/users/users.service.ts and user-admin.service.ts, src/auth/auth.service.ts
-- Functions keep the names of the source, in snake case. An operation takes the database and returns
-- a result, with the new database when it writes; an error leaves the database as it was, as the
-- rollback of a transaction does. The reads that a request makes before its transaction are functions
-- of their own, and Posting/History puts any other requests between them and the transaction: each
-- transaction is one step, since it locks the rows that it reads.
--
-- Parameters. decimal.js is the record Decimals: its results are exact while their coefficient
-- stays below `limit`, 10 ^ 20 at its default precision of twenty digits, and its rounding to a
-- number of places is half up. `localeCompare` orders the tax codes, `leb_name` the names of
-- partners in the aging report, and `parse` reads the text of a rate. `verify` checks a password.
-- New ids, hashes, `new Date()` and the lifetime of tokens are arguments; responses under an
-- idempotency key are of any type.
--
-- Date.UTC takes a year from 0 to 99 as one from 1900 to 1999, as Dates does wherever the source calls
-- it; a column of type @db.Date keeps the day of a date as it is.
--
-- Fuel is used only to print a number in DocRef, where a number has no more digits than its value.
--
-- Not modelled: HTTP, configuration, audit, metrics and search; the SQL text, of which the model has
-- the meaning; the signing of tokens, and the lists that only read.
pub mod Common
pub mod Errors
pub mod Money
pub mod Dates
pub mod DocRef
pub mod Store
pub mod Sequence
pub mod Company
pub mod Periods
pub mod Posting
pub mod Balances
pub mod Settlement
pub mod Journal
pub mod YearEnd
pub mod Reports
pub mod Idempotency
pub mod Partners
pub mod Invoicing
pub mod Payments
pub mod Invoices
pub mod Accounts
pub mod TaxCodes
pub mod Sessions
pub mod Users
pub mod Tax
pub mod Tests
