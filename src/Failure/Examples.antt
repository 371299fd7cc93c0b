-- ===== src/Failure/Examples.antt =====
-- Failures of concrete upstream answers.
use keygrid.Prelude.{◌≤◌, ◌≡◌, refl, none, some, arith, length}
use keygrid.Failure.{upstream, should_failover, channel_failure}
use keygrid.Failure.Classes.{channel_failure-classify}
use keygrid.Failure.Message.{
  codes, normalize_err_whitespace, truncate_err_message, fields_from, join_words, is_space,
  stored_message_fits,
}

channel_failure-classify_example :
    channel_failure (some (upstream 404 "" "")) 404 ≡ should_failover 404 none
channel_failure-classify_example = (channel_failure-classify 404 "" "" (omega arith)).1

squeezed : normalize_err_whitespace (codes " bad\n  request ") ≡ codes "bad request"
unfolding normalize_err_whitespace fields_from join_words is_space
squeezed = refl

stored_message_fits_example :
    length (truncate_err_message (normalize_err_whitespace (codes " bad\n  request "))) ≤ 513
stored_message_fits_example = (stored_message_fits (codes " bad\n  request ")).0
