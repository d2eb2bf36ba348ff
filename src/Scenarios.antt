-- ===== src/Scenarios.antt =====
-- Runs of the definitions at concrete inputs, and applications of the theorems there.
mod Deals
mod Enrichment
mod Lives
mod Tables
mod Replies
mod Vendors
mod Enrollments
mod Discovery
mod Reviews
mod Drafts
