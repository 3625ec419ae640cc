-- ===== src/Frame/RoundTrip.antt =====
-- The reader rebuilds what the writer framed.
use mathlib.Core.List.{append-nil, append_assoc}
use passport_nostr_signer.Prelude.{
  ℕ, suc, ◌+◌, ◌-◌, ◌/◌, ◌≤◌, ◌<◌, ◌≡◌, refl, ◌∙◌, Bool, true, false, Option, none, some, List, [],
  ◌∷◌, ◌++◌, arith, Bytes, length, replicate, flatten, ◌==◌, All, length-append,
}
use passport_nostr_signer.Prelude.Result.{Result, ok}
use passport_nostr_signer.Frame.{
  FrameError, Defragmenter, idle, make_report, flags_at, frame_chunks, frame, chunks, feed,
  feed_all, accept, append_payload, has_flag, max_payload_bytes,
}
use passport_nostr_signer.Frame.Chunks.{IsChunk, chunks-IsChunk, flatten-chunks, length-chunks}
use passport_nostr_signer.Frame.Reports.{init_of_flags_at, final_of_flags_at, feed-make_report}

-- What the calls of `feed` return for a message: `Ok(None)` n times, then the payload.
abbrev pub delivery : ℕ → Bytes → List (Result (Option Bytes) FrameError)
delivery n payload = replicate n (ok none) ++ ok (some payload) ∷ []

abbrev open_with : Bytes → Defragmenter
open_with buf = record { buf = buf; in_message = true }

-- A report in the middle of a message, or at its end.
module _ (d : Defragmenter) (buf c : Bytes) (h : IsChunk c)
    (fits : length buf + length c ≤ max_payload_bytes) where
  append_middle : append_payload (open_with buf) false c ≡ (open_with (buf ++ c), ok none)
  unfolding append_payload
  append_middle = ground arith

  append_last : append_payload (open_with buf) true c ≡ (idle, ok (some (buf ++ c)))
  unfolding append_payload
  append_last = ground arith

feed_all-cons :
    (d d' : Defragmenter) (r : Bytes) (rs : List Bytes) {out : Result (Option Bytes) FrameError}
    → feed d r ≡ (d', out)
    → feed_all d (r ∷ rs) ≡ ((feed_all d' rs).0, out ∷ (feed_all d' rs).1)
unfolding feed_all
feed_all-cons d d' r rs e = rw e

-- The report at place i of `last`, which is the last one or not.
feed_at :
    (i last : ℕ) (fin : Bool) (d : Defragmenter) (c : Bytes)
    → (i == last) ≡ fin
    → IsChunk c
    → feed d (make_report (flags_at i last) c) ≡ accept d (i == 0) fin c
feed_at i last fin d c e h = rw (
  feed-make_report d (flags_at i last) c h.1,
  init_of_flags_at i last,
  final_of_flags_at i last,
  e,
)

feed_next :
    (i last : ℕ) (fin : Bool) (buf c : Bytes)
    → 0 < i
    → (i == last) ≡ fin
    → IsChunk c
    → feed (open_with buf) (make_report (flags_at i last) c) ≡ append_payload (open_with buf) fin c
feed_next i last fin buf c pos e h =
    feed_at i last fin (open_with buf) c e h ∙ (unfold accept in ground arith)

feed_first :
    (last : ℕ) (fin : Bool) (d : Defragmenter) (c : Bytes)
    → (0 == last) ≡ fin
    → IsChunk c
    → feed d (make_report (flags_at 0 last) c) ≡ append_payload (open_with []) fin c
feed_first last fin d c e h = feed_at 0 last fin d c e h ∙ (unfold accept in refl)

feed_all_one :
    (d : Defragmenter) (buf c r : Bytes)
    → IsChunk c
    → length buf + length (c ++ []) ≤ max_payload_bytes
    → feed d r ≡ append_payload (open_with buf) true c
    → feed_all d (r ∷ []) ≡ (idle, ok (some (buf ++ (c ++ []))) ∷ [])
unfolding feed_all
feed_all_one d buf c r h fits e =
    let fits' : length buf + length c ≤ max_payload_bytes = omega (arith, length-append c []) in
    rw (e, append_last d buf c h fits', append-nil)

feed_all_two :
    (d : Defragmenter) (buf c c' : Bytes) (r : Bytes) (rs : List Bytes) (n : ℕ)
    → IsChunk c
    → length buf + length (c ++ c') ≤ max_payload_bytes
    → feed d r ≡ append_payload (open_with buf) false c
    → feed_all (open_with (buf ++ c)) rs
      ≡ (idle, replicate n (ok none) ++ ok (some (buf ++ c ++ c')) ∷ [])
    → feed_all d (r ∷ rs) ≡ (idle, replicate (suc n) (ok none) ++ ok (some (buf ++ (c ++ c'))) ∷ [])
feed_all_two d buf c c' r rs n h fits e ih =
    let fits' : length buf + length c ≤ max_payload_bytes = omega (arith, length-append c c') in
    rw (
      feed_all-cons d (open_with (buf ++ c)) r rs (e ∙ append_middle d buf c h fits'),
      ih,
      append_assoc,
    )

-- The reports after the first one, read with `buf` already there.
feed_all_rest :
    (cs : List Bytes) (i last : ℕ) (buf c : Bytes)
    → 0 < i
    → last ≡ i + length cs
    → All IsChunk (c ∷ cs)
    → length buf + length (c ++ flatten cs) ≤ max_payload_bytes
    → feed_all (open_with buf) (frame_chunks i last (c ∷ cs))
      ≡ (idle, replicate (length cs) (ok none) ++ ok (some (buf ++ (c ++ flatten cs))) ∷ [])
unfolding frame_chunks
feed_all_rest [] i last buf c pos e h fits =
    feed_all_one (open_with buf) buf c (make_report (flags_at i last) c) h.0 fits
      (feed_next i last true buf c pos (ground arith) h.0)
feed_all_rest (c' ∷ cs) i last buf c pos e h fits =
    feed_all_two (open_with buf) buf c (c' ++ flatten cs) (make_report (flags_at i last) c)
      (frame_chunks (i + 1) last (c' ∷ cs)) (length cs) h.0 fits
      (feed_next i last false buf c pos (ground arith) h.0)
      (feed_all_rest cs (i + 1) last (buf ++ c) c' (omega arith) (omega arith) h.1
        (omega (arith, length-append buf c, length-append c (c' ++ flatten cs))))

-- Any state, any payload that fits: the first report opens a new session.
feed_all_chunks :
    (cs : List Bytes) (d : Defragmenter) (c : Bytes)
    → All IsChunk (c ∷ cs)
    → length (c ++ flatten cs) ≤ max_payload_bytes
    → feed_all d (frame_chunks 0 (length cs) (c ∷ cs))
      ≡ (idle, delivery (length cs) (c ++ flatten cs))
unfolding frame_chunks
feed_all_chunks [] d c h fits =
    feed_all_one d [] c (make_report (flags_at 0 0) c) h.0 (omega arith)
      (feed_first 0 true d c (ground arith) h.0)
feed_all_chunks (c' ∷ cs) d c h fits =
    feed_all_two d [] c (c' ++ flatten cs) (make_report (flags_at 0 (suc (length cs))) c)
      (frame_chunks 1 (suc (length cs)) (c' ∷ cs)) (length cs) h.0 (omega arith)
      (feed_first (suc (length cs)) false d c (ground arith) h.0)
      (feed_all_rest cs 1 (suc (length cs)) c c' (omega arith) (omega arith) h.1
        (omega (arith, length-append c (c' ++ flatten cs))))

frame_of_chunks :
    (cs : List Bytes) (p : Bytes) (d : Defragmenter) (n : ℕ)
    → flatten cs ≡ p
    → All IsChunk cs
    → length cs ≡ suc n
    → length p ≤ max_payload_bytes
    → feed_all d (frame_chunks 0 (length cs - 1) cs) ≡ (idle, delivery n p)
frame_of_chunks [] p d n e h len fits = absurd (omega arith)
frame_of_chunks (c ∷ cs) p d n e h len fits =
    let before : length cs ≡ n = omega arith in
    let last : length (c ∷ cs) - 1 ≡ length cs = omega arith in
    rw (last, ← before, ← e) (feed_all_chunks cs d c h (rw e fits))

-- Whatever the reader's state, the reports that `frame` makes of a payload of at most 16 KiB give
-- `Ok(None)` for each but the last and the payload for the last, and leave the reader idle. There
-- are (len - 1) / 60 + 1 of them, and one for the empty payload.
pub feed_all-frame :
    (d : Defragmenter) (payload : Bytes)
    → length payload ≤ max_payload_bytes
    → feed_all d (frame payload) ≡ (idle, delivery ((length payload - 1) / 60) payload)
unfolding frame
feed_all-frame d [] fits = unfold feed_all feed accept append_payload has_flag in refl
feed_all-frame d (b ∷ bs) fits =
    let p : Bytes = b ∷ bs in
    frame_of_chunks (chunks (length p) p) p d ((length p - 1) / 60)
      (flatten-chunks (length p) p (omega arith)) (chunks-IsChunk (length p) p)
      (omega (arith, length-chunks (length p) p (omega arith))) fits
