-- ===== src/Resilience/Identity/Catalogue.antt =====
-- The default catalogue of src/acquire_intel/resilience/identity.py.
use acquire_intel.Prelude.{List, [], ◌∷◌, Text, codes, Dict}
use acquire_intel.Resilience.Identity.{BrowserProfile}

abbrev language : Text → Text × Text
language value = (codes "Accept-Language", value)

abbrev client_hints : Text → Dict Text
client_hints platform =
    language (codes "en-US,en;q=0.9")
    ∷ (
      codes "sec-ch-ua",
      codes "\"Chromium\";v=\"125\", \"Google Chrome\";v=\"125\", \"Not.A/Brand\";v=\"24\"",
    )
    ∷ (codes "sec-ch-ua-mobile", codes "?0")
    ∷ (codes "sec-ch-ua-platform", platform)
    ∷ []

abbrev pub chrome_win : BrowserProfile
chrome_win = record {
  name = codes "chrome-win";
  user_agent =
      codes
        "Mozilla/5.0 (Windows NT 10.0; Win64; x64) AppleWebKit/537.36 (KHTML, like Gecko) Chrome/125.0.0.0 Safari/537.36";
  headers = client_hints (codes "\"Windows\"");
  viewport = (1920, 1080);
  locale = codes "en-US";
}

abbrev pub chrome_mac : BrowserProfile
chrome_mac = record {
  name = codes "chrome-mac";
  user_agent =
      codes
        "Mozilla/5.0 (Macintosh; Intel Mac OS X 10_15_7) AppleWebKit/537.36 (KHTML, like Gecko) Chrome/125.0.0.0 Safari/537.36";
  headers = client_hints (codes "\"macOS\"");
  viewport = (1680, 1050);
  locale = codes "en-US";
}

abbrev pub firefox_win : BrowserProfile
firefox_win = record {
  name = codes "firefox-win";
  user_agent =
      codes "Mozilla/5.0 (Windows NT 10.0; Win64; x64; rv:126.0) Gecko/20100101 Firefox/126.0";
  headers = language (codes "en-US,en;q=0.5") ∷ [];
  viewport = (1920, 1080);
  locale = codes "en-US";
}

abbrev pub firefox_linux : BrowserProfile
firefox_linux = record {
  name = codes "firefox-linux";
  user_agent =
      codes "Mozilla/5.0 (X11; Ubuntu; Linux x86_64; rv:126.0) Gecko/20100101 Firefox/126.0";
  headers = language (codes "en-US,en;q=0.5") ∷ [];
  viewport = (1600, 900);
  locale = codes "en-US";
}

abbrev pub safari_mac : BrowserProfile
safari_mac = record {
  name = codes "safari-mac";
  user_agent =
      codes
        "Mozilla/5.0 (Macintosh; Intel Mac OS X 10_15_7) AppleWebKit/605.1.15 (KHTML, like Gecko) Version/17.4 Safari/605.1.15";
  headers = language (codes "en-US,en;q=0.9") ∷ [];
  viewport = (1440, 900);
  locale = codes "en-US";
}

abbrev pub default_profiles : List BrowserProfile
default_profiles = chrome_win ∷ chrome_mac ∷ firefox_win ∷ firefox_linux ∷ safari_mac ∷ []
