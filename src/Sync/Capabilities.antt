-- ===== src/Sync/Capabilities.antt =====
-- `services/sync.py`: what the name of a model tells of what it can do.
use inter_gate.Base.{String, Bool, not, ◌&&◌, List, [], ◌∷◌, ◌++◌, any, string_eq, if◌then◌else◌}
use inter_gate.Base.Text.{Text, codes, lower, contains_text}

-- `any(x in m for x in words)`
abbrev pub mentions : Text → List String → Bool
mentions m words = any (λ x. contains_text m (codes x)) words

abbrev pub chat_words : List String
chat_words =
    "gpt" ∷ "o1" ∷ "o3" ∷ "o4" ∷ "claude" ∷ "gemini" ∷ "llama" ∷ "qwen" ∷ "deepseek" ∷ "mistral"
    ∷ "glm" ∷ "kimi" ∷ "grok" ∷ "doubao" ∷ "hunyuan" ∷ "ernie" ∷ "spark" ∷ "step" ∷ "yi"
    ∷ "baichuan" ∷ "minimax" ∷ []

abbrev pub vision_words : List String
vision_words =
    "vision" ∷ "-vl" ∷ "vl-" ∷ "4o" ∷ "gemini" ∷ "claude-3" ∷ "claude-opus-4" ∷ "claude-sonnet-4"
    ∷ "qwen-vl" ∷ "gpt-5" ∷ "gpt-4.1" ∷ "o3" ∷ "o4" ∷ []

abbrev pub reasoning_words : List String
reasoning_words = "o1" ∷ "o3" ∷ "o4" ∷ "r1" ∷ "reasoner" ∷ "reasoning" ∷ "thinking" ∷ "qwq" ∷ []

-- `if b: caps.append(c)`
abbrev pub cap_if : Bool → String → List String
cap_if b c = if b then c ∷ [] else []

abbrev pub or_other : List String → List String
or_other [] = "other" ∷ []
or_other (c ∷ cs) = c ∷ cs

unfoldable pub infer_capabilities : String → List String
unfolding lower contains_text
infer_capabilities model_id =
    let m = lower (codes model_id) in
    let embeds = mentions m ("embed" ∷ "ada" ∷ []) in
    let is_chat = mentions m chat_words in
    or_other (
      cap_if embeds "embedding"
      ++ (cap_if (mentions m ("dall-e" ∷ "image" ∷ "flux" ∷ "sdxl" ∷ [])) "image"
          ++ (cap_if (mentions m ("whisper" ∷ "stt" ∷ "transcri" ∷ [])) "audio"
              ++ (cap_if (mentions m ("tts" ∷ "speech" ∷ [])) "tts"
                  ++ (cap_if is_chat "chat"
                      ++ (cap_if (mentions m vision_words) "vision"
                          ++ (cap_if (mentions m reasoning_words) "reasoning"
                              ++ cap_if (is_chat && not embeds) "tools")))))))
