-- ===== src/Harness/Server.antt =====
-- harness/server.py: how the mock server answers. A body is the list of its bytes. What `json.dumps`
-- prints and how werkzeug writes a cookie are parameters.
use acquire_intel.Prelude.{
  ℕ, ◌+◌, Bool, false, ◌&&◌, Option, none, some, List, [], ◌∷◌, ◌++◌, ltb, if◌then◌else◌, Text,
  codes, eqb, show, Dict, get, is_empty,
}
use acquire_intel.Resilience.Middleware.{Response}
use acquire_intel.Acquisition.Sources.Json.{Json, string, object, field, end}
use acquire_intel.Harness.Scenarios.{
  Scenario, happy, rate_limited, block_after_n, captcha, cookie_wall, soft_ban, drift,
  HarnessConfig, happy_page, drift_page,
}

abbrev line : Text → Text → Text
line text rest = text ++ 10 ∷ rest

-- CHALLENGE_HTML
abbrev pub challenge_html : Text
challenge_html = line (codes "<!doctype html>") (
    line (codes "<html lang=\"en\">") (
      line (codes "  <head><title>Just a moment...</title></head>") (
        line (codes "  <body>") (
          line (codes "    <div id=\"challenge-form\" class=\"captcha\">") (
            line (codes "      <h1>Please verify you are human</h1>") (
              line (codes "      <p>Enable JavaScript and complete the CAPTCHA to continue.</p>") (
                line (codes "      <noscript>This site requires JavaScript and cookies.</noscript>")
                  (line (codes "    </div>")
                    (line (codes "  </body>") (line (codes "</html>") []))))))))))

-- A dash in UTF-8.
abbrev em_dash : Text
em_dash = 0xE2 ∷ 0x80 ∷ 0x94 ∷ []

-- COOKIE_WALL_HTML
abbrev pub cookie_wall_html : Text
cookie_wall_html = line (codes "<!doctype html>") (
    line (codes "<html lang=\"en\">") (
      line (codes "  <head><title>Verifying your browser</title></head>") (
        line
          (codes "  <body><p>Setting a session cookie "
            ++ em_dash
            ++ codes " please retry.</p></body>")
          (line (codes "</html>") []))))

abbrev pub forbidden_html : Text
forbidden_html =
    codes "<html><body>403 Forbidden " ++ em_dash ++ codes " access denied</body></html>"

-- `_IdentityCounter`: the calls that a scenario and an identity have made.
abbrev pub Counter : Type 0
Counter = List ((Text × Text) × ℕ)

abbrev same_key : Text × Text → Text × Text → Bool
same_key (a, b) (c, d) = eqb a c && eqb b d

unfoldable pub count_of : Counter → Text × Text → ℕ
unfolding eqb
count_of [] key = 0
count_of ((k, n) ∷ counts) key = if same_key k key then n else count_of counts key

unfoldable pub set_count : Counter → Text × Text → ℕ → Counter
unfolding eqb
set_count [] key n = (key, n) ∷ []
set_count ((k, m) ∷ counts) key n =
    if same_key k key then (k, n) ∷ counts else (k, m) ∷ set_count counts key n

-- `bump`: the count before this call.
abbrev pub bump : Text × Text → Counter → ℕ × Counter
bump key counts = (count_of counts key, set_count counts key (count_of counts key + 1))

-- `reset`
abbrev pub reset : Counter → Counter
reset counts = []

-- `first or second`
abbrev or_next : Option Text → Text → Text
or_next none second = second
or_next (some first) second = if is_empty first then second else first

-- `_identity`
unfoldable pub identity_of : Dict Text → Option Text → Text
unfolding get
identity_of headers remote_addr =
    or_next (get headers (codes "X-Harness-Identity"))
      (or_next (get headers (codes "User-Agent")) (or_next remote_addr (codes "anonymous")))

abbrev pub value_of : Scenario → Text
value_of happy = codes "happy"
value_of rate_limited = codes "rate_limited"
value_of block_after_n = codes "block_after_n"
value_of captcha = codes "captcha"
value_of cookie_wall = codes "cookie_wall"
value_of soft_ban = codes "soft_ban"
value_of drift = codes "drift"

abbrev scenarios : List Scenario
scenarios = happy ∷ rate_limited ∷ block_after_n ∷ captcha ∷ cookie_wall ∷ soft_ban ∷ drift ∷ []

unfoldable pub find_scenario : List Scenario → Text → Option Scenario
unfolding eqb
find_scenario [] name = none
find_scenario (s ∷ rest) name = if eqb (value_of s) name then some s else find_scenario rest name

-- Scenario(name); `none` is the ValueError.
unfoldable pub scenario_of : Text → Option Scenario
unfolding find_scenario
scenario_of name = find_scenario scenarios name

-- A call of the route, as Flask hands it on.
pub record Call : Type 0 where
  pub scenario : Text
  pub page : ℕ
  pub headers : Dict Text
  pub remote_addr : Option Text
  pub cookies : Dict Text

abbrev plain_response : ℕ → Text → Response
plain_response status body = record {
  status = status;
  body = body;
  set_cookie = none;
  retry_after = none;
}

abbrev is_cookie : Option Text → Text → Bool
is_cookie none value = false
is_cookie (some cookie) value = eqb cookie value

module _ (dumps : Json → Text) (cookie_header : Text → Text → Text) where
  -- `_json`
  abbrev pub json_response : Json → ℕ → Response
  json_response payload status = plain_response status (dumps payload)

  abbrev pub too_many : HarnessConfig → Response
  too_many cfg =
      record (json_response (object (field (codes "error") (string (codes "rate limited")) end))
        429) { retry_after = some (show cfg.retry_after_seconds) }

  -- `_respond`
  unfoldable pub respond : HarnessConfig → Scenario → ℕ → ℕ → Dict Text → Response
  unfolding get eqb drift_page
  respond cfg happy count page cookies = json_response (happy_page page cfg.page_size) 200
  respond cfg rate_limited count page cookies =
      if ltb count cfg.rate_limited_burst
      then too_many cfg
      else json_response (happy_page page cfg.page_size) 200
  respond cfg block_after_n count page cookies =
      if ltb count cfg.block_after
      then json_response (happy_page page cfg.page_size) 200
      else plain_response 403 forbidden_html
  respond cfg captcha count page cookies = plain_response 200 challenge_html
  respond cfg cookie_wall count page cookies =
      if is_cookie (get cookies cfg.session_cookie) cfg.session_cookie_value
      then json_response (happy_page page cfg.page_size) 200
      else record (plain_response 403 cookie_wall_html) {
        set_cookie = some (cookie_header cfg.session_cookie cfg.session_cookie_value);
      }
  respond cfg soft_ban count page cookies = plain_response 200 []
  respond cfg drift count page cookies = json_response (drift_page page cfg.page_size) 200

  abbrev pub served : HarnessConfig → Call → Counter → Option Scenario → Response × Counter
  served cfg c counts none =
      (plain_response 404 (codes "unknown scenario: " ++ c.scenario ++ 10 ∷ []), counts)
  served cfg c counts (some s) =
      let (count, counts') = bump (value_of s, identity_of c.headers c.remote_addr) counts in
      (respond cfg s count c.page c.cookies, counts')

  -- The route `/<scenario>/products.json`.
  unfoldable pub products : HarnessConfig → Call → Counter → Response × Counter
  unfolding respond identity_of count_of set_count scenario_of
  products cfg c counts = served cfg c counts (scenario_of c.scenario)
