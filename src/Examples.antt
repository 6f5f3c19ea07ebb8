-- ===== src/Examples.antt =====
-- The theorems at concrete inputs, on a host that records what it is given.
mod Delivery
mod Sending
mod Tracing
mod Threads
mod LangChain
mod Generating
mod Providers
mod OpenAi
mod Anthropic
