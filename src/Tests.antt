-- ===== src/Tests.antt =====
-- The theorems at concrete inputs, and runs of the handlers that can be followed in the source.
mod Fixtures
mod Bindings
mod Bootstraps
mod Handlers
mod Runner
mod Storage
mod Database
mod Clusters
mod Records
mod Lifecycle
mod Servers
mod Proxies
mod Workspaces
mod Deploys
mod Permissions
mod Counters
mod Connectors
mod Feeds
mod Attachments
mod Addresses
mod Services
mod Openings
