-- ===== src/Outreach.antt =====
-- The outreach side: contacts with their pitch history, enrollments, replies and their webhook.
pub mod Rows
pub mod PitchHistory
pub mod Eligibility
pub mod Contacts
pub mod Enrollments
pub mod Replies
pub mod Webhook
pub mod EmailEvents
pub mod SmartleadPush
pub mod EnrollmentApi
pub mod Angles
pub mod Steps
pub mod AngleFilter
pub mod DraftRows
pub mod Generation
