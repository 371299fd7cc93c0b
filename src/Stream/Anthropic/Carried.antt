-- ===== src/Stream/Anthropic/Carried.antt =====
-- The pieces of text, of reasoning and of arguments on their way from an Anthropic upstream to a client of the
-- Responses entry.
