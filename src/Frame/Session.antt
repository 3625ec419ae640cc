-- ===== src/Frame/Session.antt =====
-- The reader's session: its buffer stays bounded, and each branch of `feed` is told apart.
use passport_nostr_signer.Prelude.{
  ◌+◌, ◌*◌, ◌≤◌, ◌≡◌, refl, Bool, true, false, Option, some, List, [], ◌∷◌, arith, Bytes, length,
  get_or, take, drop, All, length-append,
}
use passport_nostr_signer.Prelude.Result.{Result, ok, err}
use passport_nostr_signer.Frame.{
  FrameError, bad_report_size, unexpected_continuation, Defragmenter, idle, feed, feed_all, accept,
  append_payload, has_flag, flag_init, flag_final, max_payload_bytes, header_size,
}

-- The buffer is within the limit, and is empty outside a message.
pub record IsValid (d : Defragmenter) : Type 0 where
  pub bounded : length d.buf ≤ max_payload_bytes
  pub cleared : d.in_message ≡ false → d.buf ≡ []

-- What a call may hand to its caller.
abbrev pub IsBounded : Result (Option Bytes) FrameError → Type 0
IsBounded (ok (some payload)) = length payload ≤ max_payload_bytes
IsBounded _ = Unit

append_payload-IsValid :
    (d : Defragmenter) (fin : Bool) (p : Bytes)
    → d.in_message ≡ true
    → IsValid (append_payload d fin p).0 × IsBounded (append_payload d fin p).1
unfolding append_payload
append_payload-IsValid d fin p e = ground (arith, length-append d.buf p)

abbrev fresh : Defragmenter
fresh = record { buf = []; in_message = true }

accept-IsValid :
    (d : Defragmenter) (init fin : Bool) (p : Bytes)
    → IsValid d
    → IsValid (accept d init fin p).0 × IsBounded (accept d init fin p).1
unfolding accept
accept-IsValid d true fin p v = append_payload-IsValid fresh fin p refl
accept-IsValid d false fin p v = ground (arith, append_payload-IsValid d fin p)

feed-IsValid :
    (d : Defragmenter) (r : Bytes) → IsValid d → IsValid (feed d r).0 × IsBounded (feed d r).1
unfolding feed
feed-IsValid d r v = ground (
  arith,
  accept-IsValid d (has_flag (get_or r 0 0) flag_init) (has_flag (get_or r 0 0) flag_final)
      (take (get_or r 2 0 * 256 + get_or r 3 0) (drop header_size r)) v,
)

-- Whatever reports a peer sends, the buffer stays within 16 KiB and is empty outside a message, and
-- no payload of more than 16 KiB is handed on.
pub feed_all-IsValid :
    (d : Defragmenter) (rs : List Bytes)
    → IsValid d
    → IsValid (feed_all d rs).0 × All IsBounded (feed_all d rs).1
unfolding feed_all
feed_all-IsValid d [] v = (v, tt)
feed_all-IsValid d (r ∷ rs) v =
    let here = feed-IsValid d r v in
    let rest = feed_all-IsValid (feed d r).0 rs here.0 in (rest.0, (here.1, rest.1))

-- The state that a failed call leaves.
abbrev pub after_error : FrameError → Defragmenter → Defragmenter
after_error (bad_report_size n) d = d
after_error unexpected_continuation d = d
after_error _ d = idle

accept_error :
    (d : Defragmenter) (init fin : Bool) (p : Bytes) (e : FrameError)
    → (accept d init fin p).1 ≡ err e
    → (accept d init fin p).0 ≡ after_error e d
unfolding accept append_payload
accept_error d true fin p e h = ground arith
accept_error d false fin p e h = ground arith

-- A call that fails on the size of the report, or on a continuation with no message, leaves the
-- reader as it was; a call that fails on a length or on the total size resets it.
pub feed_error :
    (d : Defragmenter) (r : Bytes) (e : FrameError)
    → (feed d r).1 ≡ err e
    → (feed d r).0 ≡ after_error e d
unfolding feed
feed_error d r e h = ground (
  arith,
  accept_error d (has_flag (get_or r 0 0) flag_init) (has_flag (get_or r 0 0) flag_final)
      (take (get_or r 2 0 * 256 + get_or r 3 0) (drop header_size r)) e,
)
