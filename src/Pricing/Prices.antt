-- ===== src/Pricing/Prices.antt =====
-- `config/pricing.py`: the table of the prices, and the cost of a request.
use inter_gate.Base.{ℕ, String, List, [], ◌∷◌}
use inter_gate.Base.Text.{Text, codes}
use inter_gate.Base.Floats.{Floats}
use inter_gate.Base.Dict.{Dict}
use inter_gate.Pricing.{Rule, price_for}

module _ (fl : Floats) where
  open fl use {F, add, mul, div, of_ℕ, decimal}

  abbrev pub Price : Type 0
  Price = F × F

  abbrev price : String → F → F → Rule Price
  price prefix input output = (codes prefix, (input, output))

  abbrev pub model_prices : List (Rule Price)
  model_prices =
      price "deepseek-chat" (decimal 27 2) (decimal 110 2)
      ∷ price "deepseek-reasoner" (decimal 55 2) (decimal 219 2)
      ∷ price "deepseek-r1" (decimal 55 2) (decimal 219 2)
      ∷ price "deepseek" (decimal 27 2) (decimal 110 2)
      ∷ price "glm-4.6" (decimal 60 2) (decimal 220 2)
      ∷ price "glm-4.5" (decimal 60 2) (decimal 220 2)
      ∷ price "glm-4-plus" (decimal 50 2) (decimal 200 2)
      ∷ price "glm-4-air" (decimal 2 2) (decimal 2 2)
      ∷ price "glm-4-flash" (decimal 1 2) (decimal 1 2)
      ∷ price "glm-4-long" (decimal 1 2) (decimal 1 2)
      ∷ price "glm" (decimal 30 2) (decimal 90 2)
      ∷ price "qwen-max" (decimal 280 2) (decimal 830 2)
      ∷ price "qwen-plus" (decimal 10 2) (decimal 30 2)
      ∷ price "qwen-turbo" (decimal 5 2) (decimal 10 2)
      ∷ price "qwen-long" (decimal 1 2) (decimal 2 2)
      ∷ price "qwen" (decimal 20 2) (decimal 60 2)
      ∷ price "kimi-k2" (decimal 60 2) (decimal 250 2)
      ∷ price "kimi" (decimal 60 2) (decimal 200 2)
      ∷ price "moonshot" (decimal 60 2) (decimal 200 2)
      ∷ price "doubao-1.5" (decimal 20 2) (decimal 60 2)
      ∷ price "doubao-seed" (decimal 20 2) (decimal 60 2)
      ∷ price "doubao-pro" (decimal 15 2) (decimal 30 2)
      ∷ price "doubao" (decimal 50 2) (decimal 200 2)
      ∷ price "spark-max" (decimal 30 2) (decimal 60 2)
      ∷ price "spark-pro" (decimal 15 2) (decimal 30 2)
      ∷ price "spark-lite" (decimal 1 2) (decimal 1 2)
      ∷ price "spark" (decimal 30 2) (decimal 60 2)
      ∷ price "ernie-4" (decimal 400 2) (decimal 1200 2)
      ∷ price "ernie-3.5" (decimal 170 2) (decimal 170 2)
      ∷ price "ernie-speed" (decimal 10 2) (decimal 10 2)
      ∷ price "ernie" (decimal 170 2) (decimal 170 2)
      ∷ price "hunyuan-turbo" (decimal 70 2) (decimal 280 2)
      ∷ price "hunyuan-lite" (decimal 1 2) (decimal 1 2)
      ∷ price "hunyuan" (decimal 70 2) (decimal 280 2)
      ∷ price "sensenova" (decimal 100 2) (decimal 300 2)
      ∷ price "minimax" (decimal 20 2) (decimal 60 2)
      ∷ price "step" (decimal 40 2) (decimal 120 2)
      ∷ price "yi" (decimal 40 2) (decimal 120 2)
      ∷ price "baichuan" (decimal 50 2) (decimal 150 2)
      ∷ price "minicpm" (decimal 10 2) (decimal 30 2)
      ∷ price "gpt-5-mini" (decimal 25 2) (decimal 200 2)
      ∷ price "gpt-5-nano" (decimal 5 2) (decimal 40 2)
      ∷ price "gpt-5" (decimal 125 2) (decimal 1000 2)
      ∷ price "gpt-4.1-mini" (decimal 40 2) (decimal 160 2)
      ∷ price "gpt-4.1-nano" (decimal 10 2) (decimal 40 2)
      ∷ price "gpt-4.1" (decimal 200 2) (decimal 800 2)
      ∷ price "gpt-4o-mini" (decimal 15 2) (decimal 60 2)
      ∷ price "gpt-4o" (decimal 250 2) (decimal 1000 2)
      ∷ price "gpt-4-turbo" (decimal 1000 2) (decimal 3000 2)
      ∷ price "gpt-4" (decimal 3000 2) (decimal 6000 2)
      ∷ price "gpt-3.5" (decimal 50 2) (decimal 150 2)
      ∷ price "gpt" (decimal 250 2) (decimal 1000 2)
      ∷ price "o1-mini" (decimal 300 2) (decimal 1200 2)
      ∷ price "o1" (decimal 1500 2) (decimal 6000 2)
      ∷ price "o3-mini" (decimal 110 2) (decimal 440 2)
      ∷ price "o3" (decimal 200 2) (decimal 800 2)
      ∷ price "o4-mini" (decimal 110 2) (decimal 440 2)
      ∷ price "claude-3-opus" (decimal 1500 2) (decimal 7500 2)
      ∷ price "claude-3-5-haiku" (decimal 80 2) (decimal 400 2)
      ∷ price "claude-3-haiku" (decimal 25 2) (decimal 125 2)
      ∷ price "claude-opus" (decimal 1500 2) (decimal 7500 2)
      ∷ price "claude-sonnet" (decimal 300 2) (decimal 1500 2)
      ∷ price "claude-haiku" (decimal 80 2) (decimal 400 2)
      ∷ price "claude" (decimal 300 2) (decimal 1500 2)
      ∷ price "gemini-3-pro" (decimal 200 2) (decimal 1200 2)
      ∷ price "gemini-3-flash" (decimal 50 2) (decimal 300 2)
      ∷ price "gemini-2.5-pro" (decimal 125 2) (decimal 1000 2)
      ∷ price "gemini-2.5-flash-lite" (decimal 10 2) (decimal 40 2)
      ∷ price "gemini-2.5-flash" (decimal 30 2) (decimal 250 2)
      ∷ price "gemini-2.0-flash" (decimal 10 2) (decimal 40 2)
      ∷ price "gemini-1.5-flash" (decimal 75 3) (decimal 30 2)
      ∷ price "gemini" (decimal 125 2) (decimal 500 2)
      ∷ price "llama-4-maverick" (decimal 23 2) (decimal 23 2)
      ∷ price "llama-4-scout" (decimal 13 2) (decimal 13 2)
      ∷ price "llama-3.3" (decimal 60 2) (decimal 60 2)
      ∷ price "llama-3.1-405b" (decimal 350 2) (decimal 350 2)
      ∷ price "llama-3.1-70b" (decimal 60 2) (decimal 60 2)
      ∷ price "llama-3.1-8b" (decimal 5 2) (decimal 5 2)
      ∷ price "llama" (decimal 60 2) (decimal 60 2)
      ∷ price "grok-3-mini" (decimal 30 2) (decimal 50 2)
      ∷ price "grok-3" (decimal 300 2) (decimal 1500 2)
      ∷ price "grok-2" (decimal 200 2) (decimal 1000 2)
      ∷ price "grok" (decimal 300 2) (decimal 1500 2)
      ∷ price "mistral-large" (decimal 200 2) (decimal 600 2)
      ∷ price "mistral-medium" (decimal 250 2) (decimal 750 2)
      ∷ price "mistral-small" (decimal 10 2) (decimal 30 2)
      ∷ price "codestral" (decimal 30 2) (decimal 90 2)
      ∷ price "ministral" (decimal 10 2) (decimal 10 2)
      ∷ price "mistral" (decimal 60 2) (decimal 160 2)
      ∷ price "nova-pro" (decimal 80 2) (decimal 320 2)
      ∷ price "nova-lite" (decimal 6 2) (decimal 24 2)
      ∷ price "nova-micro" (decimal 35 3) (decimal 14 2)
      ∷ price "nova" (decimal 80 2) (decimal 320 2)
      ∷ []

  abbrev pub default_price : Price
  default_price = (decimal 100 2, decimal 300 2)

  -- `estimate_cost`, with Python's `round` to six places as a parameter.
  unfoldable pub estimate_cost : (F → F) → Dict Text Price → Text → ℕ → ℕ → F × F × F
  unfolding price_for
  estimate_cost round overrides model prompt_tokens completion_tokens =
      let (pin, pout) = price_for overrides model_prices default_price model in
      let cost =
        div (add (mul (of_ℕ prompt_tokens) pin) (mul (of_ℕ completion_tokens) pout))
          (of_ℕ 1_000_000) in
      (round cost, pin, pout)
