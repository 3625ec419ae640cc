-- ===== src/Frame/Reports.antt =====
-- One report: what the writer puts in it, and what the reader takes out of it.
use passport_nostr_signer.Prelude.{
  ℕ, ◌+◌, ◌-◌, ◌*◌, ◌≤◌, ◌≡◌, refl, List, [], ◌∷◌, inl, inr, arith, Bytes, length, take, drop,
  replicate, get_or, ◌==◌, All, Bool-cases, length-append, length-replicate, take-append,
}
use passport_nostr_signer.Frame.{
  make_report, flags_at, frame_chunks, frame, chunks, feed, accept, has_flag, flag_init, flag_final,
  report_size, payload_per_report, Defragmenter,
}
use passport_nostr_signer.Frame.Chunks.{IsChunk, chunks-IsChunk}

pub init_of_flags_at : (i last : ℕ) → has_flag (flags_at i last) flag_init ≡ (i == 0)
unfolding has_flag flags_at
init_of_flags_at i last = elim (Bool-cases (i == 0)) [
  | inl a ↦ elim (Bool-cases (i == last)) [ inl b ↦ rw (a, b) | inr b ↦ rw (a, b) ]
  | inr a ↦ elim (Bool-cases (i == last)) [ inl b ↦ rw (a, b) | inr b ↦ rw (a, b) ]
]

pub final_of_flags_at : (i last : ℕ) → has_flag (flags_at i last) flag_final ≡ (i == last)
unfolding has_flag flags_at
final_of_flags_at i last = elim (Bool-cases (i == 0)) [
  | inl a ↦ elim (Bool-cases (i == last)) [ inl b ↦ rw (a, b) | inr b ↦ rw (a, b) ]
  | inr a ↦ elim (Bool-cases (i == last)) [ inl b ↦ rw (a, b) | inr b ↦ rw (a, b) ]
]

pub length-make_report :
    (flags : ℕ) (c : Bytes) → length c ≤ payload_per_report → length (make_report flags c) ≡ 64
unfolding make_report
length-make_report flags c h = omega (
  arith,
  length-append c (replicate (payload_per_report - length c) 0),
  length-replicate {A = ℕ} (payload_per_report - length c) 0,
)

-- A report of the right size with a length that fits reaches `accept`.
pub feed_well_formed :
    (d : Defragmenter) (r : Bytes)
    → length r ≡ report_size
    → get_or r 2 0 * 256 + get_or r 3 0 ≤ payload_per_report
    → feed d r
      ≡ accept d
          (has_flag (get_or r 0 0) flag_init)
          (has_flag (get_or r 0 0) flag_final)
          (take (get_or r 2 0 * 256 + get_or r 3 0) (drop 4 r))
unfolding feed
feed_well_formed d r size fits = ground arith

declared_length :
    (flags : ℕ) (c : Bytes)
    → length c ≤ payload_per_report
    → get_or (make_report flags c) 2 0 * 256 + get_or (make_report flags c) 3 0 ≡ length c
unfolding make_report
declared_length flags c h = omega arith

payload_of_report : (flags : ℕ) (c : Bytes) → take (length c) (drop 4 (make_report flags c)) ≡ c
unfolding make_report
payload_of_report flags c =
    take-append (length c) c (replicate (payload_per_report - length c) 0) refl

flags_of_report : (flags : ℕ) (c : Bytes) → get_or (make_report flags c) 0 0 ≡ flags
unfolding make_report
flags_of_report flags c = refl

-- The reader finds the flags and the chunk that the writer put in.
pub feed-make_report :
    (d : Defragmenter) (flags : ℕ) (c : Bytes)
    → length c ≤ payload_per_report
    → feed d (make_report flags c)
      ≡ accept d (has_flag flags flag_init) (has_flag flags flag_final) c
feed-make_report d flags c h =
    let len = declared_length flags c h in
    rw (
      feed_well_formed d (make_report flags c) (length-make_report flags c h) (omega arith),
      len,
      payload_of_report flags c,
      flags_of_report flags c,
    )

-- A report that the writer may send: 64 bytes, the reserved byte 0, and a length that fits.
abbrev pub IsReport : Bytes → Type 0
IsReport r =
    (length r ≡ report_size)
    × (get_or r 1 0 ≡ 0)
    × (get_or r 2 0 * 256 + get_or r 3 0 ≤ payload_per_report)

make_report-IsReport :
    (flags : ℕ) (c : Bytes) → length c ≤ payload_per_report → IsReport (make_report flags c)
make_report-IsReport flags c h = (
  length-make_report flags c h,
  (unfold make_report in refl),
  omega (arith, declared_length flags c h),
)

frame_chunks-IsReport :
    (i last : ℕ) (cs : List Bytes) → All IsChunk cs → All IsReport (frame_chunks i last cs)
unfolding frame_chunks
frame_chunks-IsReport i last [] h = tt
frame_chunks-IsReport i last (c ∷ cs) h =
    (make_report-IsReport (flags_at i last) c h.0.1, frame_chunks-IsReport (i + 1) last cs h.1)

-- Every report that `frame` makes has 64 bytes, the reserved byte 0 and a declared length of at
-- most 60.
pub frame-IsReport : (payload : Bytes) → All IsReport (frame payload)
unfolding frame
frame-IsReport [] = ((refl, refl, omega arith), tt)
frame-IsReport (b ∷ bs) =
    let cs = chunks (length (b ∷ bs)) (b ∷ bs) in
    frame_chunks-IsReport 0 (length cs - 1) cs (chunks-IsChunk (length (b ∷ bs)) (b ∷ bs))
