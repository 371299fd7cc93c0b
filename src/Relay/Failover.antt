-- ===== src/Relay/Failover.antt =====
-- The loop over the candidates, the gateway's own reply, and the deferred calls.
use Prim.Native.String.{◌++◌ as ◌<>◌}
use keygrid.Prelude.{ℕ, ◌==◌, if◌then◌else◌, List, [], ◌∷◌, Option, none, some, String, str_eq}
use keygrid.Breaker.Registry.{Breaker, release_on}
use keygrid.Relay.{Next, go_on, stop, Request, Round, Note, Call, Loop, Ending, go_on, stop}
use keygrid.Relay.Attempt.{round}

-- `continue` goes on with the rest, anything else returns.
abbrev pub continue_with : (Loop → Option Ending × Loop) → Next → Option Ending × Loop
continue_with rest (go_on s) = rest s
continue_with rest (stop e s) = (some e, s)

-- The loop; `none` when no candidate is left.
unfoldable pub try_all : Request → List Round → Loop → Option Ending × Loop
try_all req [] s = (none, s)
try_all req (r ∷ rs) s = continue_with (try_all req rs) (round req r s)

unfoldable pub release_all : List (ℕ × ℕ) → Breaker → Breaker
release_all [] b = b
release_all ((id, token) ∷ ls) b = release_all ls (release_on b id token)

-- The answer that the gateway writes itself, when every candidate failed.
unfoldable pub all_failed : Loop → ℕ × String
all_failed s =
    ((if s.last_status == 0 then 503 else s.last_status), "all channels failed: " <> message)
  where
    message : String
    message =
        if str_eq s.last_err_detail ""
        then s.last_err_msg
        else s.last_err_msg <> ": " <> s.last_err_detail

pub record Result : Type 0 where
  pub ending : Option Ending
  pub error_reply : Option (ℕ × String)
  pub breaker : Breaker
  pub notes : List Note
  pub calls : List Call

abbrev pub start : Breaker → Loop
start b = record {
  breaker = b;
  leases = [];
  failed_channels = [];
  last_status = 0;
  last_err_msg = "";
  last_err_detail = "";
  notes = [];
  calls = [];
}

abbrev pub reply_of : Option Ending → Loop → Option (ℕ × String)
reply_of none s = some (all_failed s)
reply_of (some e) s = none

-- The loop, the reply, and the deferred calls.
unfoldable pub relay : Request → List Round → Breaker → Result
relay req rounds b =
    let (ending, s) = try_all req rounds (start b) in
    record {
      ending = ending;
      error_reply = reply_of ending s;
      breaker = release_all s.leases s.breaker;
      notes = s.notes;
      calls = s.calls;
    }
