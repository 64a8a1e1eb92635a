-- ===== src/Privacy.antt =====
-- app/privacy.py
use lead_generation_api_zyla.Prelude.{String}
use lead_generation_api_zyla.Prelude.Text.{strip, lower, split_words, join}
use lead_generation_api_zyla.Env.{Env}

unfoldable pub normalize_subject : String → String
unfolding strip lower split_words join
normalize_subject value = join " " (split_words (lower (strip value)))

unfoldable pub hash_subject : Env → String → String
hash_subject env value = env.hmac_sha256 env.api_key_pepper (normalize_subject value)
