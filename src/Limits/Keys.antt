-- ===== src/Limits/Keys.antt =====
-- RateLimiter of internal/relay/ratelimit.go: requests per minute and concurrent requests of an API key,
-- counted in Redis. Redis is not modelled: what it answers enters as a reply, `none` for an error, and
-- the commands that it carries out are listed: an INCR that fails is not among them.
use keygrid.Prelude.{
  ℕ, Bool, true, false, List, [], ◌∷◌, ◌++◌, Option, none, some, ltb, ◌==◌, if◌then◌else◌, ◌&&◌,
}

-- The commands on the keys `rl:rpm:<key>:<minute>` and `rl:conc:<key>`.
pub data Command : Type 0 where
  incr_rpm expire_rpm : Command
  incr_conc decr_conc set_conc_zero : Command

-- `redis` is whether the limiter and its client are there.
pub record RateLimiter : Type 0 where
  pub redis : Bool
  pub rpm_per_key : ℕ
  pub concurrency_per_key : ℕ

-- Whether a request passes, the commands of the check that are carried out, and whether the function that it returns for the
-- end of the request is the one that gives a slot back.
pub record Verdict : Type 0 where
  pub ok : Bool
  pub commands : List Command
  pub returns_slot : Bool

-- The commands of the minute bucket, and whether the request is over its limit.
unfoldable pub check_rpm : RateLimiter → Option ℕ → List Command × Bool
check_rpm rl reply =
    if ltb 0 rl.rpm_per_key
    then elim reply [
      | none ↦ ([], false)
      | some n ↦ (incr_rpm ∷ (if n == 1 then expire_rpm ∷ [] else []), ltb rl.rpm_per_key n)
    ]
    else ([], false)

unfoldable pub check_concurrency : RateLimiter → Option ℕ → List Command × Bool
check_concurrency rl reply =
    if ltb 0 rl.concurrency_per_key
    then elim reply [
      | none ↦ ([], false)
      | some n ↦
          if ltb rl.concurrency_per_key n
          then (incr_conc ∷ decr_conc ∷ [], true)
          else (incr_conc ∷ [], false)
    ]
    else ([], false)

abbrev pub judge : List Command × Bool → List Command × Bool → Verdict
judge (rpm, true) c = record { ok = false; commands = rpm; returns_slot = false }
judge (rpm, false) (conc, true) = record {
  ok = false;
  commands = rpm ++ conc;
  returns_slot = false;
}
judge (rpm, false) (conc, false) = record { ok = true; commands = rpm ++ conc; returns_slot = true }

abbrev pub unlimited : Verdict
unlimited = record { ok = true; commands = []; returns_slot = false }

unfoldable pub check : RateLimiter → Option ℕ → Option ℕ → Verdict
check rl rpm_reply conc_reply =
    if rl.redis then judge (check_rpm rl rpm_reply) (check_concurrency rl conc_reply) else unlimited

-- The function that `Check` returns, called at the end of the request; `negative` is that the decrement
-- worked and left a negative count.
unfoldable pub release : RateLimiter → Verdict → Bool → List Command
release rl v negative =
    if v.returns_slot && (ltb 0 rl.concurrency_per_key && rl.redis)
    then decr_conc ∷ (if negative then set_conc_zero ∷ [] else [])
    else []
