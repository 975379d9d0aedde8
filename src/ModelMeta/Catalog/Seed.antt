-- ===== src/ModelMeta/Catalog/Seed.antt =====
-- The seed of pkg/modelmeta/catalog.go.
use ultiproxy.Base.{List, [], ◌∷◌, bytes, pos}
use ultiproxy.ModelMeta.{Entry}

abbrev pub compiled : List Entry
compiled =
    (record {
      entry_id = bytes "glm-5.3";
      context_length = pos 1000000;
      max_output = pos 131072;
      input_modalities = bytes "text" ∷ [];
      output_modalities = bytes "text" ∷ [];
      source = bytes "https://docs.z.ai/guides/coding-plan";
    })
    ∷ (record {
      entry_id = bytes "glm-5.3-flash";
      context_length = pos 1000000;
      max_output = pos 131072;
      input_modalities = bytes "text" ∷ [];
      output_modalities = bytes "text" ∷ [];
      source = bytes "https://docs.z.ai/guides/coding-plan";
    })
    ∷ (record {
      entry_id = bytes "grok-4.6";
      context_length = pos 131072;
      max_output = pos 8192;
      input_modalities = bytes "text" ∷ [];
      output_modalities = bytes "text" ∷ [];
      source = bytes "https://docs.x.ai/docs/models";
    })
    ∷ (record {
      entry_id = bytes "gemini-3.8-flash-high";
      context_length = pos 1048576;
      max_output = pos 65536;
      input_modalities = bytes "text" ∷ bytes "image" ∷ [];
      output_modalities = bytes "text" ∷ [];
      source = bytes "https://ai.google.dev/gemini-api/docs/models";
    })
    ∷ (record {
      entry_id = bytes "gemini-3.7-flash-high";
      context_length = pos 1048576;
      max_output = pos 65536;
      input_modalities = bytes "text" ∷ bytes "image" ∷ [];
      output_modalities = bytes "text" ∷ [];
      source = bytes "https://ai.google.dev/gemini-api/docs/models";
    })
    ∷ (record {
      entry_id = bytes "claude-sonnet-4-6";
      context_length = pos 200000;
      max_output = pos 65536;
      input_modalities = bytes "text" ∷ bytes "image" ∷ [];
      output_modalities = bytes "text" ∷ [];
      source = bytes "https://docs.anthropic.com/en/docs/about-claude/models/overview";
    })
    ∷ (record {
      entry_id = bytes "claude-haiku-4.5";
      context_length = pos 200000;
      max_output = pos 32768;
      input_modalities = bytes "text" ∷ bytes "image" ∷ [];
      output_modalities = bytes "text" ∷ [];
      source = bytes "https://docs.anthropic.com/en/docs/about-claude/models/overview";
    })
    ∷ []
