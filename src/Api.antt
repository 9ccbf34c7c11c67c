-- ===== src/Api.antt =====
-- analyzer/src/analyzer/api: the read-only HTTP interface. queries.py is in Api/Traces, Api/Details and
-- Api/Listings, schemas.py in Api/Schemas and routes.py in Api/Routes.
pub mod Traces
pub mod Details
pub mod Listings
pub mod Schemas
pub mod Routes
pub mod Pages
pub mod Durations
pub mod Matches
pub mod Answers
pub mod Spans
pub mod OneTrace
pub mod Sums
pub mod Roots
pub mod Best
mod Samples
mod ListingSamples
