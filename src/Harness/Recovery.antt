-- ===== src/Harness/Recovery.antt =====
-- How a crawl gets past the rate limit of harness/server.py: the server counts the calls of an
-- identity, and the backoff retries of the chain use its limit up.
mod Tests
use acquire_intel.Prelude.{
  ℕ, zero, suc, ◌+◌, ◌≡◌, ◌≤◌, ◌<◌, refl, sym, ap, subst, ◌∙◌, Bool, true, false, Option, none,
  some, List, [], ◌∷◌, ltb, lt→ltb, Text, codes, eqb, eqb_refl, eqb_iff, Dict, arith, ◌==◌,
}
use acquire_intel.Resilience.Backoff.{BackoffPolicy, Random}
use acquire_intel.Resilience.Classifier.{ok, classify}
use acquire_intel.Resilience.Middleware.{Request, Response, counter, is_infra_request, domain}
use acquire_intel.Resilience.Middleware.BackoffRetry.{is_retryable}
use acquire_intel.Resilience.Middleware.Rotation.{Rotation, stamp_proxy}
use acquire_intel.Resilience.Middleware.Chain.{Fetched, delivered, World, Layer, fetch}
use acquire_intel.Resilience.Middleware.Chain.ClearFetch.{
  IsClear, stamp_proxy-kept, clear_delivered, limited_again,
}
use acquire_intel.Resilience.Middleware.BanDetection.{BanEvent}
use acquire_intel.Resilience.Middleware.Chain.Configured.{layer_of, made-IsConfigured}
use acquire_intel.Config.{Settings}
use acquire_intel.Acquisition.Sources.Json.{Json}
use acquire_intel.Harness.Scenarios.{Scenario, rate_limited, HarnessConfig, happy_page}
use acquire_intel.Harness.Server.{
  Counter, count_of, set_count, bump, identity_of, scenario_of, Call, json_response, too_many,
  respond, served, products,
}

count-set_count :
    (counts : Counter) (a b : Text) (n : ℕ) → count_of (set_count counts (a, b) n) (a, b) ≡ n
unfolding count_of set_count
count-set_count [] a b n = ground (arith, eqb_refl a, eqb_refl b)
count-set_count (((c, d), m) ∷ counts) a b n = ground (arith, count-set_count counts a b n)

-- The server as the chain sees it: its counters and its clock.
pub record Site : Type 0 where
  pub counts : Counter
  pub now : ℕ

module _ (dumps : Json → Text) (cookie_header : Text → Text → Text) (cfg : HarnessConfig)
    (call_of : Text → Dict Text → Option Text → Option Text → Call) where
  -- What Flask and the network make of a request.
  abbrev pub called : Request → Call
  called p = call_of p.url p.headers p.cookiejar p.proxy

  abbrev pub mock : World
  mock = record {
    State = Site;
    respond = λ s p.
        let (r, counts) = products dumps cookie_header cfg (called p) s.counts in
        (r, record s { counts = counts });
    clock = λ s. s.now;
    wait = λ delay s. record s { now = s.now + delay };
  }

  abbrev pub key_of : Call → Text × Text
  key_of c = (codes "rate_limited", identity_of c.headers c.remote_addr)

  limited-products :
      (c : Call) (counts : Counter)
      → c.scenario ≡ codes "rate_limited"
      → products dumps cookie_header cfg c counts ≡ (
        respond dumps cookie_header cfg rate_limited (count_of counts (key_of c)) c.page c.cookies,
        set_count counts (key_of c) (count_of counts (key_of c) + 1),
      )
  unfolding products scenario_of eqb
  limited-products c counts e =
      ap (λ (t : Text). served dumps cookie_header cfg c counts (scenario_of t)) e

  -- The answer of the server, once it knows what it is asked.
  abbrev answer : Counter → Call → Response
  answer counts c =
      respond dumps cookie_header cfg rate_limited (count_of counts (key_of c)) c.page c.cookies

  abbrev page_response : Call → Response
  page_response c = json_response dumps cookie_header (happy_page c.page cfg.page_size) 200

  answer-limited :
      (counts : Counter) (c : Call)
      → count_of counts (key_of c) < cfg.rate_limited_burst
      → answer counts c ≡ too_many dumps cookie_header cfg
  unfolding respond
  answer-limited counts c h = rw (lt→ltb (count_of counts (key_of c)) cfg.rate_limited_burst h) refl

  answer-page :
      (counts : Counter) (c : Call)
      → cfg.rate_limited_burst ≡ count_of counts (key_of c)
      → answer counts c ≡ page_response c
  unfolding respond
  answer-page counts c h = ground (arith, h)

  answered :
      (s : Site) (q : Request) (c : Call)
      → called q ≡ c
      → c.scenario ≡ codes "rate_limited"
      → products dumps cookie_header cfg (called q) s.counts
        ≡ (answer s.counts c, set_count s.counts (key_of c) (count_of s.counts (key_of c) + 1))
  answered s q c e n =
      ap (λ (t : Call). products dumps cookie_header cfg t s.counts) e
      ∙ limited-products c s.counts n

  retries_of : {a b : BackoffPolicy} → a ≡ b → a.max_retries ≡ b.max_retries
  retries_of e = ap (λ (t : BackoffPolicy). t.max_retries) e

  module _ (random : Random) (float_of : Text → Option ℕ) (c : Call) where
    restamped :
        (proxy : Option Text) (p : Request) (n : ℕ)
        → called (
            stamp_proxy proxy
              (record (stamp_proxy proxy p) { dont_filter = true; backoff_retries = some n }))
          ≡ called (stamp_proxy proxy p)
    restamped none p n = refl
    restamped (some proxy) p n = refl

    recovers_from :
        (n fuel : ℕ) (l : Layer random float_of) (s : Site) (p : Request)
        → c.scenario ≡ codes "rate_limited"
        → classify 200 (dumps (happy_page c.page cfg.page_size)) ≡ ok
        → is_infra_request p ≡ false
        → IsClear random float_of (domain p.url) l
        → called (stamp_proxy l.rotation.proxy p) ≡ c
        → count_of s.counts (key_of c) + n ≡ cfg.rate_limited_burst
        → counter p.backoff_retries + n ≤ l.backoff.policy.max_retries
        → counter p.backoff_retries + n ≤ 1024
        → n < fuel
        → (fetch random float_of mock fuel l s p).0 ≡ delivered (page_response c)
    recovers_from n zero l s p name good infra clear e count left few h = absurd (omega arith)
    recovers_from zero (suc fuel) l s p name good infra clear e count left few h =
        clear_delivered random float_of mock fuel l s p infra clear (page_response c)
          (ap (λ (t : Response × Counter). t.0)
              (answered s (stamp_proxy l.rotation.proxy p) c e name)
            ∙ answer-page s.counts c (omega (arith, count)))
          refl good
    recovers_from (suc n) (suc fuel) l s p name good infra clear e count left few h =
        let q = stamp_proxy l.rotation.proxy p in
        let (same_infra, same_url, same_count) = stamp_proxy-kept l.rotation.proxy p in
        let found = answered s q c e name in
        let limit : (mock.respond s q).0 ≡ too_many dumps cookie_header cfg =
          ap (λ (t : Response × Counter). t.0) found
          ∙ answer-limited s.counts c (omega (arith, count)) in
        let (delay, l', step, clear', same_rotation, same_policy) =
          limited_again random float_of mock fuel l s p infra clear
            (ap (λ (t : Response). is_retryable t.status) limit) (omega (arith, left))
            (omega (arith, few)) in
        ap (λ (t : Fetched × Layer random float_of × Site). t.0) step
        ∙ recovers_from n fuel l' _
            (record q {
              dont_filter = true;
              backoff_retries = some (counter q.backoff_retries + 1);
            })
            name good (same_infra ∙ infra)
            (subst (λ (t : Text). IsClear random float_of (domain t) l') (sym same_url) clear')
            (ap
                (λ (t : Rotation). called (
                  stamp_proxy t.proxy (record q {
                    dont_filter = true;
                    backoff_retries = some (counter q.backoff_retries + 1);
                  })))
                same_rotation
              ∙ restamped l.rotation.proxy p (counter q.backoff_retries + 1)
              ∙ e)
            (omega (
              arith,
              count,
              ap (λ (t : Response × Counter). count_of t.1 (key_of c)) found,
              count-set_count s.counts (codes "rate_limited") (identity_of c.headers c.remote_addr)
                  (count_of s.counts (key_of c) + 1),
            ))
            (omega (arith, left, ap counter same_count, retries_of same_policy))
            (omega (arith, few, ap counter same_count)) (omega arith)

    -- With a chain made from any settings, a request for a page of the scenario `rate_limited` ends
    -- with that page delivered, if the server limits an identity that it has not seen for no more
    -- calls than `backoff_max_retries`, and for no more than 1024: whatever the delays, and with more fuel than that limit. The
    -- page as `json.dumps` prints it is one that the classifier labels ok.
    pub rate_limit_recovers :
        (settings : Settings) (now : ℕ) (rng : random.Rng) (sink : Option (List BanEvent))
        (l : Layer random float_of) (fuel : ℕ) (s : Site) (p : Request)
        → layer_of random float_of settings now rng sink ≡ some l
        → c.scenario ≡ codes "rate_limited"
        → classify 200 (dumps (happy_page c.page cfg.page_size)) ≡ ok
        → is_infra_request p ≡ false
        → called (stamp_proxy l.rotation.proxy p) ≡ c
        → count_of s.counts (key_of c) ≡ 0
        → p.backoff_retries ≡ none
        → cfg.rate_limited_burst ≤ settings.backoff_max_retries
        → cfg.rate_limited_burst ≤ 1024
        → cfg.rate_limited_burst < fuel
        → (fetch random float_of mock fuel l s p).0
          ≡ delivered (json_response dumps cookie_header (happy_page c.page cfg.page_size) 200)
    rate_limit_recovers settings now rng sink l fuel s p made name good infra e fresh first few
          exponents h =
        let k = made-IsConfigured random float_of settings now rng sink l made in
        recovers_from cfg.rate_limited_burst fuel l s p name good infra (k.clear (domain p.url)) e
          (omega (arith, fresh)) (omega (arith, few, ap counter first, retries_of k.policy))
          (omega (arith, exponents, ap counter first)) h
