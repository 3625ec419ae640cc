-- ===== src/Ui/Format.antt =====
-- src/main.rs: the helpers that read what the user typed and write what the screens show.
use passport_nostr_signer.Prelude.{
  ℕ, ◌-◌, ◌/◌, Bool, true, not, ◌&&◌, ◌||◌, Option, none, some, [], ◌∷◌, ◌++◌, Bytes, Text, text,
  length, take, drop, is_some, ltb, leb, ◌==◌, if◌then◌else◌,
}
use passport_nostr_signer.Prelude.Result.{Result, ok, err, map_err}
use passport_nostr_signer.External.{Hex, Curve}
use passport_nostr_signer.Strings.{is_empty, len, strip_prefix, trim}
use passport_nostr_signer.Describe.{Show, nostr_text}
use passport_nostr_signer.Keys.{NostrError, SecretKey, secret_from_hex}
use passport_nostr_signer.Ui.{ℤ, pos, negsuc}

module _ (show : Show) where
  unfoldable pub ui_u32 : ℤ → Text → ℕ → ℕ → Result ℕ Text
  ui_u32 (negsuc _) label min max =
      err (label ++ text " must be at least " ++ show.decimal min ++ text ".")
  ui_u32 (pos value) label min max =
      if ltb value min || ltb max value
      then err (
          label
          ++ text " must be between "
          ++ show.decimal min
          ++ text " and "
          ++ show.decimal max
          ++ text ".")
      else ok value

  unfoldable pub human_duration : ℕ → Text
  human_duration seconds =
      let minutes = seconds / 60 in
      let hours = minutes / 60 in
      if ltb minutes 1
      then text "less than 1m"
      else if ltb minutes 60
      then show.decimal minutes ++ text "m"
      else if ltb hours 48
      then show.decimal hours ++ text "h"
      else show.decimal (hours / 24) ++ text "d"

  unfoldable pub format_expiry : ℕ → ℕ → Text
  unfolding human_duration
  format_expiry expires_at now =
      if expires_at == 0
      then text "never"
      else if leb expires_at now
      then text "expired"
      else text "in " ++ human_duration (expires_at - now)

  unfoldable pub format_last_used : ℕ → ℕ → Text
  unfolding human_duration
  format_last_used last_used_at now =
      if last_used_at == 0
      then text "never"
      else if leb now last_used_at
      then text "just now"
      else human_duration (now - last_used_at) ++ text " ago"

unfoldable pub validate_label : Text → Option Text
validate_label s =
    let trimmed = trim s in
    if is_empty trimmed
    then some (text "Give this key a label.")
    else if ltb 40 (length trimmed)
    then some (text "Label is too long (40 characters max).")
    else none

-- `copy_from_slice` of what has the right length.
abbrev sized : Result Bytes Text → Option Bytes
sized (err _) = none
sized (ok bytes) = if not (length bytes == 16) then none else some bytes

unfoldable pub parse_uuid_arg : Hex → Text → Option Bytes
parse_uuid_arg hx s = sized (hx.decode s)

-- The code cuts at bytes; what it is given are hex digits, of one byte each.
unfoldable pub short_hex : Text → Text
short_hex h = if ltb 16 (len h) then take 8 h ++ 8230 ∷ drop (length h - 8) h else h

abbrev is_ascii_hexdigit : ℕ → Bool
is_ascii_hexdigit c =
    (leb b'0' c && leb c b'9') || (leb b'a' c && leb c b'f') || (leb b'A' c && leb c b'F')

unfoldable pub all_hexdigits : Text → Bool
all_hexdigits [] = true
all_hexdigits (c ∷ cs) = is_ascii_hexdigit c && all_hexdigits cs

module _ (curve : Curve) (hx : Hex) (show : Show)
    (decode_nsec : Text → Result SecretKey NostrError) where
  unfoldable pub parse_nsec_or_hex : Text → Result SecretKey Text
  unfolding all_hexdigits
  parse_nsec_or_hex s =
      if is_empty s
      then err (text "Secret is required.")
      else if is_some (strip_prefix (text "nsec1") s)
      then map_err (λ e. text "Bad nsec1: " ++ nostr_text show e) (decode_nsec s)
      else if (len s == 64) && all_hexdigits s
      then map_err (λ e. text "Bad hex: " ++ nostr_text show e) (secret_from_hex curve hx s)
      else err (text "Expected nsec1… or a 64-char hex secret.")

unfoldable pub kind_friendly : ℕ → Text
kind_friendly k =
    if k == 0
    then text "profile metadata"
    else if k == 1
    then text "text note"
    else if k == 3
    then text "follow list"
    else if k == 4
    then text "legacy DM"
    else if k == 5
    then text "deletion"
    else if k == 6
    then text "repost"
    else if k == 7
    then text "reaction"
    else if k == 20
    then text "picture post"
    else if k == 1111
    then text "comment"
    else if k == 9734
    then text "zap request"
    else if k == 9735
    then text "zap receipt"
    else if k == 30023
    then text "long-form article"
    else text "custom kind"

-- What the scanner gives back.
pub data ScanQrResult : Type 0 where
  qr : Bytes → ScanQrResult
  ur2 : ScanQrResult
  left_clicked : ScanQrResult
  right_clicked : ScanQrResult
  button_clicked : ScanQrResult

-- `scan_nsec_via_qr`: the scanner's error is given by its `Debug` text, and UTF-8 is an argument.
module _ (from_utf8 : Bytes → Result Text Text) where
  unfoldable pub scanned_text : Option ScanQrResult → Result (Option Text) Text
  scanned_text (some (qr data')) = trimmed (from_utf8 data')
    where
      trimmed : Result Text Text → Result (Option Text) Text
      trimmed (ok s) = ok (some (trim s))
      trimmed (err e) = err (text "qr payload not utf-8: " ++ e)
  scanned_text _ = ok none

  unfoldable pub scan_nsec_via_qr : Result (Option ScanQrResult) Text → Result (Option Text) Text
  unfolding scanned_text
  scan_nsec_via_qr (err e) = err (text "open_qr_scanner: " ++ e)
  scan_nsec_via_qr (ok scanned) = scanned_text scanned
