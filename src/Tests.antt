-- ===== src/Tests.antt =====
-- The theorems at concrete inputs, and small runs of the definitions.
mod Samples
mod Catalog
mod Runs
mod History
mod Webhooks
mod Redaction
mod Kernel
mod Auth
mod RunService
mod Streams
mod Streaming
mod Public
mod Invocations
mod Keys
mod Visitors
mod Differences
mod Envelope
mod Subscriptions
