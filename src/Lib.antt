-- ===== src/Lib.antt =====
-- A verification library of the EduGear backend, a multi-tenant school management API in
-- TypeScript (NestJS and Prisma). It models the parts that decide what a school is owed, what a
-- report card says, and which school's rows an operation can reach.
--
-- Finance keeps invoices (StudentFee) and payments (Payment). A payment is recorded as pending,
-- and verified or rejected later; verification allocates a receipt number and rebuilds the invoice
-- from its verified payments. A statement prints the ledger of a student.
--   Finance/FeeMath: src/finance/fee-math.ts (sum, payable, balance, deriveStatus).
--   Finance/Ledger: src/finance/statement-ledger.ts (buildLedger, postingDate,
--     expectedClosingBalance).
--   Finance/Receipts: src/finance/receipt-number.ts (formatReceiptNumber, nextReceiptSequence,
--     RECEIPT_NUMBER_PATTERN).
--   Finance/Store: the rows of prisma/schema.prisma that these services share, and their updates.
--   Finance/Payments: src/finance/payments.service.ts (record, verify, reject, recalculateInvoice,
--     nextReceiptNumber, assertNotOverpaying) and attachToPayment of src/files/files.service.ts.
--   Finance/StudentFees: src/finance/student-fees.service.ts (assign, discount, waive, cancel,
--     mutateLocked) and getPublishedOrThrow of src/finance/fee-structures.service.ts.
--   Finance/Histories: any sequence of those operations but assign, as a step relation.
--
-- Results turn raw scores into a sheet for a class arm and a term, which goes from draft to
-- submitted, approved and published, and back to draft.
--   Results/Grading: src/results/grading.ts (validateGradeBands, gradeFor,
--     validateAssessmentScheme).
--   Results/Ranking: src/results/ranking.ts (competitionRank, the suffix of ordinal).
--   Results/Compute: src/results/compute-results.ts (computeResults).
--   Results/Access: src/results/results-access.service.ts (the three assertions).
--   Results/School, Results/Snapshot, Results/Sheets: src/results/result-sheets.service.ts (inputs;
--     the rows that recompute writes; compute, submit, approve, publish, returnToDraft, comment).
--
-- Academics is the calendar that terms, fees and results refer to: sessions with their terms.
--   Academics/Periods: src/academics/date-range.ts, src/academics/academic-session-rules.ts.
--   Academics/Sessions: src/academics/academic-sessions.service.ts (create, update, setCurrent,
--     remove). Academics/Terms: src/academics/terms.service.ts (the same for terms).
--   Academics/Histories: any sequence of those operations.
--
-- Attendance/Register is save of src/attendance/attendance.service.ts, with mayTake, termOn and the
-- school's week of src/tenants/school-days.ts.
--
-- Students/Csv is src/students/import/csv.ts (parseCsv, toCsvField), the reader of the file that a
-- school's students are imported from, with the lines that
-- src/students/import/import-columns.ts writes for a template.
--
-- Tenancy/Guard is src/database/tenant-guard.extension.ts, the Prisma extension between every
-- service and the database: the rows of the other parts are those of one school because of it.
--
-- Auth decides who may call all of this. A user signs in to a membership, which names a school and a
-- role, and gets a short-lived access token and a refresh token; every request's access token is
-- checked against the rows as they are, through a cache, and the route's permissions after it.
--   Auth/Store: the rows of prisma/schema.prisma behind sign-in, and what handlers answer.
--   Auth/Tokens: src/auth/token.service.ts (issueTokens, issuePlatformTokens, rotateRefreshToken,
--     revokeRefreshToken, revokeFamily, revokeAllForUser, createVerificationToken,
--     consumeVerificationToken).
--   Auth/Passwords: src/auth/password.service.ts (assertMeetsPolicy).
--   Auth/Access: src/auth/access-control.service.ts (getMembershipSnapshot, hasAllPermissions) and
--     the map in the process of src/auth/membership-cache.service.ts.
--   Auth/Login, Auth/Sessions: src/auth/auth.service.ts (login; refresh, logout, logoutAll,
--     switchSchool, forgotPassword, resetPassword, changePassword, verifyEmail,
--     resendVerification).
--   Auth/Strategy, Auth/Permissions, Auth/Admission: src/auth/strategies/jwt.strategy.ts, and the
--     guards of src/common/guards in the order of src/app.module.ts.
--   Auth/Histories: any sequence of those handlers; Auth/Writes: the writes that they are made of,
--     which the proofs on histories go by.
--
-- Common holds what the parts share: tests and lists over the native numbers, strings as lists of
-- UTF-16 code units, integers, the stable sort, the calendar year of an instant, and Outcome, the
-- result of a handler that returns or throws (src/common/errors).
--
-- A Decimal of two places is a whole number of hundredths, a row id or a column name a number, an
-- instant a number of milliseconds. An ORM call is the change that it makes to the rows; a
-- transaction that throws leaves them as they were. Rows come in the order that a query asks for.
-- What other clients commit during a call is a parameter of verify and reject; row locks are not
-- modelled otherwise. The handlers of Auth run outside a transaction, so what they have written
-- before they throw stays; hashing, argon2 and random draws are parameters. verify tries five
-- times, as RECEIPT_ATTEMPTS says. The digits of a number are read on fuel, one more than the
-- number, which has fewer digits than that. Names of grades and of assessment components are
-- compared without the case of their ASCII letters, and their bounds and scores are whole numbers.
--
-- Not modelled: controllers and validation of requests, the DTOs and listings that handlers answer
-- with, notifications beyond whom a publication is announced to, the copied line items of an
-- invoice, audit, files and storage, Paystack and reminders, the registration of a
-- school, the membership cache in Redis, students and guardians and the rows of their import,
-- classes, summaries of attendance, portal, the rest of the platform's administration and the
-- configuration of the server. They are I/O around a library, or parts that stand on their own.
pub mod Common
pub mod Results
pub mod Finance
pub mod Tenancy
pub mod Auth
pub mod Academics
pub mod Students
pub mod Attendance
