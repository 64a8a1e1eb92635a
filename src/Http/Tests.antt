-- ===== src/Http/Tests.antt =====
-- A concrete request that fails.
use lead_generation_api_zyla.Prelude.{String, true, ◌≡◌, refl}
use lead_generation_api_zyla.Errors.{authentication}
use lead_generation_api_zyla.Search.Tests.{demo_env}
use lead_generation_api_zyla.Http.{are_id_chars, Failure, raised}
use lead_generation_api_zyla.Http.RequestId.{CarriesId, failures-CarriesId}

abbrev hex : String
hex = "0123456789abcdef0123456789abcdef"

-- a header that would break the line
abbrev supplied : String
supplied = "a b\r\n"

abbrev refused : Failure
refused = raised (authentication "invalid API key")

hex_chars : are_id_chars hex ≡ true
unfolding are_id_chars
hex_chars = refl

failures-CarriesId_example : CarriesId demo_env hex supplied refused
failures-CarriesId_example = failures-CarriesId demo_env hex supplied hex_chars refl refused
