-- ===== src/Api/Admin/Rate.antt =====
-- How often the admin route accepts a call, whoever makes it.
use acquire_intel.Prelude.{ℕ, ◌≤◌, ◌≡◌, true, false, none, List, [], ◌∷◌, map, arith}
use acquire_intel.Storage.Models.{Database}
use acquire_intel.Config.{Settings}
use acquire_intel.Api.RateLimiter.{RateLimiter, allow, run, within, Ascending, ends_by}
use acquire_intel.Api.RateLimiter.Laws.{run-within}
use acquire_intel.Api.RateLimiter.Refinement.{Ascending-weaken, ends_by-le}
use acquire_intel.Api.Admin.{
  Request, App, limiter_of, CrawlReply, refused, accepted, Outside, Answer, trigger,
}
use acquire_intel.Api.Admin.Laws.{
  Answered, rejected, crashed, limited, served, Served, malformed, unknown, launched,
  trigger-Answered,
}

pub record Call : Type 0 where
  pub clock : ℕ
  pub outside : Outside
  pub request : Request

-- A sequence of calls of the route, with the time of each answer.
unfoldable pub trigger_all : Settings → List Call → App → List (ℕ × CrawlReply)
unfolding trigger
trigger_all s [] app = []
trigger_all s (c ∷ calls) app =
    let (reply, crawls, app') = trigger s c.outside c.clock c.request app in
    (c.clock, reply) ∷ trigger_all s calls app'

-- The times of the calls that were accepted; each of them launches a crawl for every target.
unfoldable pub accepted_times : List (ℕ × CrawlReply) → List ℕ
accepted_times [] = []
accepted_times ((clock, refused p) ∷ replies) = accepted_times replies
accepted_times ((clock, accepted runs) ∷ replies) = clock ∷ accepted_times replies

-- The calls that reach the limiter, and that no more calls are accepted than it lets by.
record Tracked (last : ℕ) (clocks starts : List ℕ) (l : RateLimiter) : Type 0 where
  asks : List ℕ
  in_order : Ascending last asks
  ends : ends_by last asks ≤ ends_by last clocks
  covered : (per now : ℕ) → within per now starts ≤ within per now (run asks l).0

abbrev pub clocks_of : List Call → List ℕ
clocks_of calls = map (λ (c : Call). c.clock) calls

skipped :
    (last clock : ℕ) (clocks starts : List ℕ) (l : RateLimiter)
    → last ≤ clock
    → Tracked clock clocks starts l
    → Tracked last (clock ∷ clocks) starts l
skipped last clock clocks starts l h t = record {
  asks = t.asks;
  in_order = Ascending-weaken last clock t.asks h t.in_order;
  ends = omega (arith, t.ends, ends_by-le last clock t.asks h);
  covered = t.covered;
}

asked_refused :
    (last clock : ℕ) (clocks starts : List ℕ) (l l' : RateLimiter)
    → last ≤ clock
    → allow clock l ≡ (false, l')
    → Tracked clock clocks starts l'
    → Tracked last (clock ∷ clocks) starts l
unfolding run
asked_refused last clock clocks starts l l' h e t = record {
  asks = clock ∷ t.asks;
  in_order = (h, t.in_order);
  ends = t.ends;
  covered = λ per now. rw e (t.covered per now);
}

-- A call that is let by is accepted, or refused.
asked_let_by :
    (last clock : ℕ) (clocks starts starts' : List ℕ) (l l' : RateLimiter)
    → last ≤ clock
    → allow clock l ≡ (true, l')
    → ((per now : ℕ) → within per now starts ≤ within per now (clock ∷ starts'))
    → Tracked clock clocks starts' l'
    → Tracked last (clock ∷ clocks) starts l
unfolding run within
asked_let_by last clock clocks starts starts' l l' h e more t = record {
  asks = clock ∷ t.asks;
  in_order = (h, t.in_order);
  ends = t.ends;
  covered = λ per now. rw e (ground (arith, t.covered per now, more per now));
}

within-cons-le : (per now t : ℕ) (ts : List ℕ) → within per now ts ≤ within per now (t ∷ ts)
unfolding within
within-cons-le per now t ts = ground arith

module _ (s : Settings) (o : Outside) (request : Request) (app : App) (last clock : ℕ)
    (calls : List Call) (late : last ≤ clock) where
  abbrev Next : Answer → Type 0
  Next (reply, crawls, app') =
      Tracked clock (clocks_of calls) (accepted_times (trigger_all s calls app'))
        (limiter_of s app'.limiter)

  abbrev Whole : Answer → Type 0
  Whole (reply, crawls, app') =
      Tracked last (clock ∷ clocks_of calls)
        (accepted_times ((clock, reply) ∷ trigger_all s calls app')) (limiter_of s app.limiter)

  Served-Whole :
      (l : RateLimiter) (a : Answer)
      → allow clock (limiter_of s app.limiter) ≡ (true, l)
      → Served o request app.db l a
      → Next a
      → Whole a
  unfolding accepted_times
  Served-Whole l _ e (malformed b) t =
      asked_let_by last clock _ _ _ _ l late e (λ per now. within-cons-le per now clock _) t
  Served-Whole l _ e (unknown source sid b u) t =
      asked_let_by last clock _ _ _ _ l late e (λ per now. within-cons-le per now clock _) t
  Served-Whole l _ e (launched source runs db' b u opened) t =
      asked_let_by last clock _ _ _ _ l late e (λ per now. omega arith) t

  Answered-Whole : (a : Answer) → Answered s o clock request app a → Next a → Whole a
  unfolding accepted_times
  Answered-Whole _ (rejected b) t = skipped last clock _ _ _ late t
  Answered-Whole _ (crashed b) t = skipped last clock _ _ _ late t
  Answered-Whole _ (limited l b e) t = asked_refused last clock _ _ _ l late e t
  Answered-Whole _ (served l a b e w) t = Served-Whole l a e w t

tracked :
    (s : Settings) (calls : List Call) (last : ℕ) (app : App)
    → Ascending last (clocks_of calls)
    → Tracked last
        (clocks_of calls)
        (accepted_times (trigger_all s calls app))
        (limiter_of s app.limiter)
unfolding trigger_all accepted_times run within
tracked s [] last app a = record {
  asks = [];
  in_order = tt;
  ends = omega arith;
  covered = λ per now. omega arith;
}
tracked s (c ∷ calls) last app a =
    let answer = trigger s c.outside c.clock c.request app in
    Answered-Whole s c.outside c.request app last c.clock calls a.0 answer
      (trigger-Answered s c.outside c.clock c.request app) (tracked s calls c.clock answer.2 a.1)

-- With a clock that does not go back, the admin route of a new app accepts at most
-- `admin_rate_limit_per_minute` calls in any minute, however many calls it gets, with a right token
-- or not: seen from any moment from the last call on, no more accepted calls lie within the 60
-- seconds before it. An accepted call may launch several crawls, one for each of its targets.
pub accepts-within :
    (s : Settings) (calls : List Call) (db : Database) (now : ℕ)
    → Ascending 0 (clocks_of calls)
    → ends_by 0 (clocks_of calls) ≤ now
    → within 60 now (accepted_times (trigger_all s calls (record { limiter = none; db = db })))
      ≤ s.admin_rate_limit_per_minute
accepts-within s calls db now a h =
    let t = tracked s calls 0 (record { limiter = none; db = db }) a in
    let few =
      run-within s.admin_rate_limit_per_minute 60 t.asks now (omega arith) t.in_order
        (omega (arith, t.ends)) in
    omega (arith, few, t.covered 60 now)
