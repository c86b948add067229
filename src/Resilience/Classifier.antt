-- ===== src/Resilience/Classifier.antt =====
-- src/acquire_intel/resilience/classifier.py: every response is labelled before a spider may see it.
-- A body is the list of its bytes.
pub mod Markers
pub mod Decoding
pub mod Laws
mod Tests
unfoldable pub use Decoding.{decode_utf_8, lower}
pub use Markers.{captcha_markers, scan_limit}
use acquire_intel.Prelude.{
  ℕ, Bool, true, false, ◌&&◌, Option, none, some, List, leb, ltb, ◌==◌, if◌then◌else◌, take,
  is_empty, any_of, Text, strip_bytes, contains,
}

pub data Classification : Type 0 where
  ok rate_limited blocked captcha empty : Classification

-- `BanKind` and `BanAction` of src/acquire_intel/contracts.py.
pub data BanKind : Type 0 where
  rate_limited blocked captcha empty : BanKind

pub data BanAction : Type 0 where
  backoff rotate_identity rotate_proxy give_up : BanAction

-- body[:_SCAN_LIMIT].decode("utf-8", "ignore").lower()
unfoldable pub scanned_text : Text → Text
unfolding decode_utf_8 lower
scanned_text body = lower (decode_utf_8 (take scan_limit body))

unfoldable pub has_marker : Text → Bool
unfolding any_of contains
has_marker text = any_of (λ marker. contains marker text) captcha_markers

unfoldable pub classify : ℕ → Text → Classification
unfolding strip_bytes
classify status body =
    if has_marker (scanned_text body)
    then captcha
    else if status == 429
    then rate_limited
    else if leb 200 status && ltb status 300
    then (if is_empty (strip_bytes body) then empty else ok)
    else blocked

abbrev pub is_ban : Classification → Bool
is_ban ok = false
is_ban _ = true

-- `none` is the KeyError for `ok`.
unfoldable pub ban_kind : Classification → Option BanKind
ban_kind ok = none
ban_kind rate_limited = some BanKind.rate_limited
ban_kind blocked = some BanKind.blocked
ban_kind captcha = some BanKind.captcha
ban_kind empty = some BanKind.empty

unfoldable pub recommended_action : Classification → Option BanAction
recommended_action ok = none
recommended_action rate_limited = some BanAction.backoff
recommended_action blocked = some BanAction.rotate_identity
recommended_action captcha = some BanAction.rotate_identity
recommended_action empty = some BanAction.rotate_identity
