-- ===== src/Failure/Classes.antt =====
-- The diagnosis of a failure and the breaker agree.
use keygrid.Prelude.{ℕ, ◌≤◌, ◌≡◌, refl, ◌↔◌, ◌⊎◌, true, false, none, some, String, arith}
use keygrid.Failure.{
  upstream, should_failover, channel_failure, classify_upstream_status, upstream_4xx, upstream_429,
  upstream_5xx,
}

-- For an upstream answer of status 400 or more, the failure counts against the channel exactly when
-- the diagnosis calls it a rate limit or a server error, and exactly when an answer of that status
-- with no error would be tried again; the diagnosis is then never a transport error, and the
-- failure is tried on the next channel in any case.
pub channel_failure-classify :
    (status : ℕ) (body content_type : String)
    → 400 ≤ status
    → let e = some (upstream status body content_type) in
      ((channel_failure e status ≡ true) ↔ (
        (classify_upstream_status status ≡ upstream_429)
        ⊎ (classify_upstream_status status ≡ upstream_5xx)))
      × (channel_failure e status ≡ should_failover status none)
      × ((channel_failure e status ≡ false) ↔ (classify_upstream_status status ≡ upstream_4xx))
      × (should_failover status e ≡ true)
unfolding channel_failure should_failover classify_upstream_status
channel_failure-classify status body content_type h = (
  (λ p. ground arith, λ p. ground arith),
  ground arith,
  (λ p. ground arith, λ p. ground arith),
  refl,
)
