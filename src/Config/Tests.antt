-- ===== src/Config/Tests.antt =====
-- A proxy list as it is read from the environment.
use acquire_intel.Prelude.{◌≡◌, refl, [], ◌∷◌, codes, strip}
use acquire_intel.Config.{defaults, proxy_urls, split_commas, stripped}

two_proxies :
    proxy_urls (record (defaults [] [] []) { proxy_pool = codes " http://a:1,, http://b:2 " })
    ≡ codes "http://a:1" ∷ codes "http://b:2" ∷ []
unfolding proxy_urls split_commas stripped strip
two_proxies = refl
