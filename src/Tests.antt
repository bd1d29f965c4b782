-- ===== src/Tests.antt =====
-- Concrete runs of the models.
mod Engine
mod Limits
mod Outage
mod Tokens
mod ApiKeys
mod Listing
mod Registry
mod Edge
mod Overlap
mod Requests
mod Routes
mod Traffic
mod Endpoints
mod Startup
mod DotEnv
mod Imports
