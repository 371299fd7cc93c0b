-- ===== src/Billing/Quota.antt =====
-- QuotaEnforcer of internal/relay/quota.go. What Redis and the database answer enters as replies.
use keygrid.Prelude.{◌≡◌, Bool, true, false, not, ◌||◌, Option, none, some, if◌then◌else◌, ◌⊎◌}
use keygrid.Billing.{Money}

-- The reply to GET: a value (`none` where it is no number), a missing key, or an error.
pub data Reply {ℓ} (F : Type ℓ) : Type ℓ where
  value : Option F → Reply F
  missing : Reply F
  failed : Reply F

-- `redis` is whether there is a client; `enabled` whether the enforcer is there and switched on.
pub record QuotaEnforcer : Type 0 where
  pub redis : Bool
  pub enabled : Bool

-- The outside as one check sees it: the reply of Redis, what the database answers, and whether SETNX works.
pub record Outside {ℓ} (F : Type ℓ) : Type ℓ where
  pub get : Reply F
  pub db_used : Option F
  pub setnx : Bool

-- Whether `Reset` deletes the key in Redis.
unfoldable pub reset : QuotaEnforcer → Bool
reset q = q.redis

module _ {ℓ} {F : Type ℓ} where
  abbrev backfill : Option F → Bool → Option F
  backfill none setnx = none
  backfill (some u) setnx = if setnx then some u else none

  abbrev pub read_redis : Outside F → Reply F → Option F
  read_redis o (value v) = v
  read_redis o missing = backfill o.db_used o.setnx
  read_redis o failed = o.db_used

  unfoldable pub current_used : QuotaEnforcer → Outside F → Option F
  current_used q o = if q.redis then read_redis o o.get else o.db_used

  abbrev pub judge : Money F → F → Option F → F × (F × Bool)
  judge money limit none = (money.nothing, (limit, false))
  judge money limit (some u) = (u, (limit, money.at_least u limit))

  -- What was used, the limit, and whether the key is over it.
  unfoldable pub over_limit : Money F → QuotaEnforcer → F → Outside F → F × (F × Bool)
  over_limit money q limit o =
      if not q.enabled || not (money.positive limit)
      then (money.nothing, (limit, false))
      else judge money limit (current_used q o)

  -- The amount that `Add` sends to Redis, if any.
  unfoldable pub add : Money F → QuotaEnforcer → F → Option F
  add money q cost =
      if not q.enabled || (money.is_nothing cost || not q.redis) then none else some cost

  -- The amount that counts as used: the database's without a client, and with one the value in Redis, or the
  -- database's if the key is missing and could be written back, or if Redis fails.
  abbrev pub IsUsed : Bool → Reply F → Option F → Bool → F → Type ℓ
  IsUsed redis get db_used setnx u =
      ((redis ≡ false) × (db_used ≡ some u))
      ⊎ (((redis ≡ true) × (get ≡ value (some u)))
          ⊎ (((redis ≡ true) × (get ≡ missing) × (db_used ≡ some u) × (setnx ≡ true))
              ⊎ ((redis ≡ true) × (get ≡ failed) × (db_used ≡ some u))))

  abbrev pub Over : Money F → F → QuotaEnforcer → Outside F → Type ℓ
  Over money limit q o =
      (u : F) × IsUsed q.redis o.get o.db_used o.setnx u × (money.at_least u limit ≡ true)

  abbrev value_of : Option F → Reply F → Option F
  value_of d (value v) = v
  value_of d missing = d
  value_of d failed = d

  abbrev amount : F → Option F → F
  amount u none = u
  amount u (some v) = v
