-- ===== src/Lib.antt =====
-- NATIV: the deal lifecycle and the outreach side of a talent agency's back office.
--
-- A talent agency pitches its talents to the contacts of brands. A pitch is an enrollment, a sequence of
-- messages; a contact's reply is classified, and an interested one opens a deal, which then moves through a
-- state machine until it is archived as won, or ends as lost, killed, disqualified or failed. The program
-- is a FastAPI application over Postgres: services hold the rules, repositories the queries, and beat
-- tasks drive what waits.
--
-- The deal (Deal):
--   Deal/Substage, Deal/Transitions, Deal/StateMachine: app/services/deal_lifecycle/transitions.py and
--   state_machine.py, and the enums of app/models/pydantic/deal_schema.py. `transition` returns a plan of
--   one or two steps, or an error. A text that is no substage is `other`.
--   Deal/LossReasons, Deal/Orchestrator: loss_reasons.py and orchestrator.py beside them. A function takes
--   the row and returns the result with the row as it then stands, also where it raises.
--   Deal/Row, Deal/Repository: app/models/sqla/deal.py and app/repositories/deal.py with base.py; the two
--   finders that feed the tasks are in Deal/Repository/Scanners. The table
--   is the list of its rows in the order of creation.
--   Deal/Tasks: app/services/deal_auto_archive_task.py and deal_phase_4_5_auto_fire_task.py.
--   Deal/Api: the writing handlers of app/api/deals.py; `serve` runs a sequence of requests.
-- The outreach (Outreach):
--   Outreach/PitchHistory, Outreach/Eligibility: app/services/outreach/loopback_writers.py and
--   policy_filter.py, and the two cooldown tests of app/services/contact_enrichment/policy_filter.py and
--   app/repositories/brand_contact.py.
--   Outreach/Enrollments, Outreach/Contacts: app/repositories/pitch_enrollment.py and brand_contact.py.
--   Outreach/Replies: app/services/outreach_reply_handler.py and app/services/outreach/deal_creator.py.
--   Outreach/Enrollments/Changes has the calls that can be refused, with the engagement events.
--   Outreach/Webhook, Outreach/EmailEvents: the endpoints `reply` and `email_event` of
--   app/api/webhooks/smartlead.py, with the keys that Redis holds and the times at which they expire.
--   Outreach/SmartleadPush: app/services/outreach/smartlead_push.py. A run is the list of the calls that
--   were sent, and the result. Outreach/EnrollmentApi: the writing handlers of app/api/enrollments.py, and
--   app/services/enrollment_state_sync.py.
--   Outreach/Angles, Outreach/AngleFilter: app/services/outreach/angle_filter.py and template_selector.py.
--   Outreach/Steps: app/services/outreach/step_generator.py, where three attempts are the code's limit.
--   Outreach/DraftRows, Outreach/Generation: orchestrator.py beside it, which puts the two together with the
--   eligibility, the enrollments and the contacts; a call returns how it ended, and the tables.
-- The enrichment (Enrichment): the filter of app/services/contact_enrichment/policy_filter.py, and
-- in Enrichment/Dedupe the merge of app/services/contact_enrichment/step_8_dedupe_merge.py.
-- The discovery (Discovery): Discovery/Policy has app/services/discovery/policy_filter.py, with
-- `is_sensitive_industry` of app/utils/taxonomies.py, and Discovery/Complementary
-- app/services/discovery/search_12_complementary_to_exclusivity.py. Discovery/Proposals has the merge of
-- app/services/discovery/phase_1_industry_compilation.py and _phase_1_relevance_filter.py, and
-- Discovery/Review the queue in which an operator approves them, app/repositories/industry_review.py and
-- app/api/industry_review.py; `serve` runs a sequence of requests, and Discovery/Review/Refines has the
-- queue of items for each talent that the table stands for. A `Session` is what SQLAlchemy promises
-- of a flush: an assignment of a value that is equal to the old one writes nothing.
-- The slugs (Slug): app/utils/slugify.py; the loop over the suffixes has one round more than there are
-- slugs to avoid, and a number is printed in one round more than its value.
-- The vendors' helpers (Vendors): app/vendors/_rate_limiter.py and _oauth_state.py. Redis is a record of
-- operations with the laws that it documents; Scenarios/Vendors has one in memory.
-- Shared: Json has the documents of the JSONB columns, with `_deep_merge` in Json/Merge; Text has `strip` and
-- `lower`; Prelude passes on the library. Scenarios holds tests and concrete instances.
--
-- Parts meet through the rows: a reply reads and writes enrollments, contacts and deals (Replies uses the
-- other two and the insert of Deal/Repository); a draft reads the library of angles and templates, and writes
-- an enrollment and a contact (Generation); the tasks and the handlers call the orchestrator.
--
-- Loops are structural recursion over lists, and need no fuel but for the slugs. Times are numbers of
-- seconds, or their ISO texts; `datetime.fromisoformat`, the name of a JSON value that is no text, the
-- acceptance of a task by the queue, the answers of Smartlead and of language models, the fresh
-- identifiers and the classification of a reply are arguments. Numbers in documents are natural. Text
-- functions are Python's on ASCII. A transaction that raises is taken to leave the tables as they
-- were; concurrency between transactions is not modelled. Messages of exceptions, logging, the
-- projection of rows to responses, and the parts that only call services or language models are left
-- out.
pub mod Prelude
pub mod Json
pub mod Text
pub mod Deal
pub mod Outreach
pub mod Discovery
pub mod Enrichment
pub mod Slug
pub mod Vendors
pub mod Scenarios
