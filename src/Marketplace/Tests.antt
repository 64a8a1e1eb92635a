-- ===== src/Marketplace/Tests.antt =====
-- Concrete marketplace requests.
use Prim.Native.String.{◌++◌ as str_append}
use lead_generation_api_zyla.Prelude.{◌≡◌, refl, ◌⊎◌}
use lead_generation_api_zyla.Prelude.Text.{lower, partition}
use lead_generation_api_zyla.Errors.{ok}
use lead_generation_api_zyla.Ledger.{IsReconciled}
use lead_generation_api_zyla.Providers.{synthetic}
use lead_generation_api_zyla.Search.Tests.{demo_env, demo-IsReconciled}
use lead_generation_api_zyla.Settings.Tests.{production}
use lead_generation_api_zyla.Security.{is_ascii}
use lead_generation_api_zyla.Routes.Tests.{request, server}
use lead_generation_api_zyla.Zyla.Tests.{raw}
use lead_generation_api_zyla.Marketplace.{authorize_zyla_request, zyla_search_post, zyla_search_get}
use lead_generation_api_zyla.Marketplace.Authorized.{
  IsRefused, IsAuthorized, marketplace_is_guarded,
}
use lead_generation_api_zyla.Marketplace.Books.{marketplace-IsReconciled}

accepted :
    authorize_zyla_request production (str_append "Bearer " production.zyla_shared_token) ≡ ok tt
unfolding authorize_zyla_request partition lower is_ascii
accepted = refl

marketplace_is_guarded_example :
    (IsRefused server
        (zyla_search_post demo_env 3600 synthetic production "Bearer wrong" request server)
      ⊎ IsAuthorized production "Bearer wrong")
    × (IsRefused server
          (zyla_search_get demo_env 3600 synthetic production "Bearer wrong" raw request server)
        ⊎ IsAuthorized production "Bearer wrong")
marketplace_is_guarded_example =
    marketplace_is_guarded demo_env 3600 synthetic production "Bearer wrong" request raw server

marketplace-IsReconciled_example :
    IsReconciled
      (zyla_search_post demo_env 3600 synthetic production
        (str_append "Bearer " production.zyla_shared_token)
        request
        server).1.process.db
    × IsReconciled
        (zyla_search_get demo_env 3600 synthetic production
          (str_append "Bearer " production.zyla_shared_token)
          raw
          request
          server).1.process.db
marketplace-IsReconciled_example =
    marketplace-IsReconciled demo_env 3600 synthetic production
      (str_append "Bearer " production.zyla_shared_token) request raw server (refl, tt)
      demo-IsReconciled
