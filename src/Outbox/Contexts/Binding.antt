-- ===== src/Outbox/Contexts/Binding.antt =====
-- core/outbox.go: what a context that OpenContext records stands for.
use memgov.Schema.Channels.{Channel}
