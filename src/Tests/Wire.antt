-- ===== src/Tests/Wire.antt =====
-- The wire format, origins and keys.
use passport_nostr_signer.Prelude.{
  ◌-◌, ◌/◌, ◌≡◌, refl, List, [], ◌∷◌, arith, Bytes, text, length, replicate, eqb, eqb_iff, All,
}
use passport_nostr_signer.Prelude.Result.{ok, err}
use passport_nostr_signer.Frame.{bad_report_size, frame, feed, feed_all, idle}
use passport_nostr_signer.Frame.RoundTrip.{delivery, feed_all-frame}
use passport_nostr_signer.Frame.Session.{
  IsValid, IsBounded, feed_all-IsValid, after_error, feed_error,
}
use passport_nostr_signer.Origin.{normalize_origin, check_trimmed, check_parts, is_url_part}
use passport_nostr_signer.Strings.{
  is_whitespace, trim, trim_start_by, trim_end_by, lower, to_ascii_lowercase, len_utf8, len,
  strip_prefix, split_once,
}
use passport_nostr_signer.Origin.Normal.{IsSiteOrigin, normalize_origin_idem}
use passport_nostr_signer.Keys.{public_key}
use passport_nostr_signer.Event.{Event, UnsignedEvent, sign, id_of, verify, unsigned_of, event_of}
use passport_nostr_signer.Event.Signed.{Signs, verify-sign}
use passport_nostr_signer.Tests.Samples.{event_lib, secret_a}

abbrev payload : Bytes
payload = replicate 130 9

feed_all-frame_example :
    feed_all idle (frame payload) ≡ (idle, delivery ((length payload - 1) / 60) payload)
feed_all-frame_example = feed_all-frame idle payload (omega arith)

abbrev noise : List Bytes
noise = replicate 64 1 ∷ (2 ∷ 5 ∷ []) ∷ (1 ∷ 0 ∷ 0 ∷ 60 ∷ replicate 60 8) ∷ []

feed_all-IsValid_example : IsValid (feed_all idle noise).0 × All IsBounded (feed_all idle noise).1
feed_all-IsValid_example =
    feed_all-IsValid idle noise (record { bounded = omega arith; cleared = λ h. refl })

normalize_a : normalize_origin (text " HTTPS://A.io/ ") ≡ ok (text "https://a.io")
unfolding normalize_origin check_trimmed check_parts is_url_part is_whitespace trim trim_start_by
    trim_end_by lower to_ascii_lowercase len_utf8 len strip_prefix split_once text eqb
normalize_a = refl

normalize_origin_idem_example :
    IsSiteOrigin (text "https://a.io")
    × (normalize_origin (text "https://a.io") ≡ ok (text "https://a.io"))
normalize_origin_idem_example =
    normalize_origin_idem (text " HTTPS://A.io/ ") (text "https://a.io") normalize_a

abbrev note : UnsignedEvent
note = record {
  pubkey = record { bytes = secret_a.bytes };
  created_at = 1;
  kind = 1;
  tags = [];
  content = text "gm";
}

secret_a-Signs : Signs event_lib secret_a
secret_a-Signs = record {
  well_formed = λ id r sig h. refl;
  verifies = λ id r sig h. (eqb_iff id sig).1 (cc h);
}

abbrev signed_note : Event
signed_note = event_of note (text "gm") (text "gm")

note_signed : sign event_lib note secret_a [] ≡ ok signed_note
unfolding sign id_of public_key eqb text
note_signed = refl

verify-sign_example : (verify event_lib signed_note ≡ ok tt) × (unsigned_of signed_note ≡ note)
verify-sign_example = verify-sign event_lib note secret_a [] signed_note secret_a-Signs note_signed

feed_fails : (feed idle (1 ∷ [])).1 ≡ err (bad_report_size 1)
unfolding feed
feed_fails = refl

feed_error_example : (feed idle (1 ∷ [])).0 ≡ after_error (bad_report_size 1) idle
feed_error_example = feed_error idle (1 ∷ []) (bad_report_size 1) feed_fails
