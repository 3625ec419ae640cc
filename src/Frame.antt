-- ===== src/Frame.antt =====
-- logic/protocol/src/frame.rs: HID reports of 64 bytes, their writer and their reader.
pub mod Chunks
pub mod Reports
pub mod RoundTrip
pub mod Session
use passport_nostr_signer.Prelude.{
  ℕ, zero, suc, ◌+◌, ◌-◌, ◌*◌, ◌/◌, ◌%◌, ◌^◌, Bool, true, false, not, Option, none, some, List, [],
  ◌∷◌, ◌++◌, bit_and, bit_or, Bytes, length, get_or, take, drop, replicate, ltb, ◌==◌,
  if◌then◌else◌,
}
use passport_nostr_signer.Prelude.Result.{Result, ok, err}

abbrev pub report_size : ℕ
report_size = 64

abbrev pub header_size : ℕ
header_size = 4

abbrev pub payload_per_report : ℕ
payload_per_report = report_size - header_size

abbrev pub flag_final : ℕ
flag_final = 0b0000_0001

abbrev pub flag_init : ℕ
flag_init = 0b1000_0000

abbrev pub max_payload_bytes : ℕ
max_payload_bytes = 16 * 1024

pub data FrameError : Type 0 where
  bad_report_size : ℕ → FrameError
  bad_chunk_len : ℕ → FrameError
  unexpected_continuation : FrameError
  payload_too_large : FrameError

-- `payload.chunks(PAYLOAD_PER_REPORT)`; the length of the slice is fuel enough.
unfoldable pub chunks : ℕ → Bytes → List Bytes
chunks zero _ = []
chunks (suc fuel) [] = []
chunks (suc fuel) (b ∷ bs) =
    take payload_per_report (b ∷ bs) ∷ chunks fuel (drop payload_per_report (b ∷ bs))

-- The bytes 2 and 3: `(chunk.len() as u16).to_be_bytes()`.
unfoldable pub make_report : ℕ → Bytes → Bytes
make_report flags chunk =
    let len = length chunk % 2 ^ 16 in
    flags ∷ 0 ∷ len / 256 ∷ len % 256 ∷ (chunk ++ replicate (payload_per_report - length chunk) 0)

unfoldable pub flags_at : ℕ → ℕ → ℕ
flags_at i last =
    let flags = if i == 0 then bit_or 0 flag_init else 0 in
    if i == last then bit_or flags flag_final else flags

-- The loop over `chunks.iter().enumerate()`.
unfoldable pub frame_chunks : ℕ → ℕ → List Bytes → List Bytes
frame_chunks i last [] = []
frame_chunks i last (chunk ∷ rest) =
    make_report (flags_at i last) chunk ∷ frame_chunks (i + 1) last rest

-- `Framer::frame`.
unfoldable pub frame : Bytes → List Bytes
frame [] = (bit_or flag_init flag_final ∷ replicate (report_size - 1) 0) ∷ []
frame (b ∷ bs) = let cs = chunks (length (b ∷ bs)) (b ∷ bs) in frame_chunks 0 (length cs - 1) cs

pub record Defragmenter : Type 0 where
  pub buf : Bytes
  pub in_message : Bool

-- `Defragmenter::default`, and the state that `reset` leaves.
abbrev pub idle : Defragmenter
idle = record { buf = []; in_message = false }

-- The end of `feed`, from the check of the total size on.
unfoldable pub append_payload :
    Defragmenter → Bool → Bytes → Defragmenter × Result (Option Bytes) FrameError
append_payload d is_final payload =
    if ltb max_payload_bytes (length d.buf + length payload)
    then (idle, err payload_too_large)
    else if is_final
    then (idle, ok (some (d.buf ++ payload)))
    else (record d { buf = d.buf ++ payload }, ok none)

-- The middle of `feed`: what the INIT flag does to the session.
unfoldable pub accept :
    Defragmenter → Bool → Bool → Bytes → Defragmenter × Result (Option Bytes) FrameError
accept d is_init is_final payload =
    if is_init
    then append_payload (record { buf = []; in_message = true }) is_final payload
    else if not d.in_message
    then (d, err unexpected_continuation)
    else append_payload d is_final payload

-- A flag of the first byte: `flags & mask != 0`.
unfoldable pub has_flag : ℕ → ℕ → Bool
has_flag flags mask = not (bit_and flags mask == 0)

-- `Defragmenter::feed`.
unfoldable pub feed : Defragmenter → Bytes → Defragmenter × Result (Option Bytes) FrameError
feed d report =
    let flags = get_or report 0 0 in
    let len = get_or report 2 0 * 256 + get_or report 3 0 in
    let is_init = has_flag flags flag_init in
    let is_final = has_flag flags flag_final in
    let payload = take len (drop header_size report) in
    if not (length report == report_size)
    then (d, err (bad_report_size (length report)))
    else if ltb payload_per_report len
    then (idle, err (bad_chunk_len len))
    else accept d is_init is_final payload

-- A peer that feeds reports as they arrive, with what each call returned.
unfoldable pub feed_all :
    Defragmenter → List Bytes → Defragmenter × List (Result (Option Bytes) FrameError)
feed_all d [] = (d, [])
feed_all d (r ∷ rs) =
    let (d', out) = feed d r in let (d'', outs) = feed_all d' rs in (d'', out ∷ outs)
