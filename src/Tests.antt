-- ===== src/Tests.antt =====
-- Tests, and concrete instances of the theorems.
mod Building
mod Giveaways
mod Wbi
mod Requesting
mod Configuring
mod Feeds
mod Fetching
mod Parsing
mod Reusing
mod Filtering
mod Caches
mod Routing
mod Serving
mod Logging
mod Dating
mod Cleaning
mod Publishing
mod Reading
mod Disguising
mod Passing
mod Signing
mod Resolving
