-- ===== src/Frame/Chunks.antt =====
-- What `payload.chunks(PAYLOAD_PER_REPORT)` gives: short pieces that join to the payload.
use passport_nostr_signer.Prelude.{
  zero, suc, ℕ, ◌+◌, ◌/◌, ◌≤◌, ◌<◌, ◌≡◌, refl, ◌∙◌, ap, [], ◌∷◌, ◌++◌, arith, Bytes, length, take,
  drop, flatten, All, length-take, length-drop, take-append-drop,
}
use passport_nostr_signer.Frame.{chunks, payload_per_report}

abbrev pub IsChunk : Bytes → Type 0
IsChunk c = (0 < length c) × (length c ≤ payload_per_report)

pub flatten-chunks : (fuel : ℕ) (p : Bytes) → length p ≤ fuel → flatten (chunks fuel p) ≡ p
unfolding chunks
flatten-chunks zero [] h = refl
flatten-chunks zero (b ∷ bs) h = absurd (omega arith)
flatten-chunks (suc fuel) [] h = refl
flatten-chunks (suc fuel) (b ∷ bs) h =
    ap (λ r. take payload_per_report (b ∷ bs) ++ r)
      (flatten-chunks fuel (drop payload_per_report (b ∷ bs))
        (omega (arith, length-drop payload_per_report (b ∷ bs))))
    ∙ take-append-drop payload_per_report (b ∷ bs)

pub chunks-IsChunk : (fuel : ℕ) (p : Bytes) → All IsChunk (chunks fuel p)
unfolding chunks
chunks-IsChunk zero p = tt
chunks-IsChunk (suc fuel) [] = tt
chunks-IsChunk (suc fuel) (b ∷ bs) = (
  omega (arith, length-take payload_per_report (b ∷ bs)),
  chunks-IsChunk fuel (drop payload_per_report (b ∷ bs)),
)

pub length-chunks :
    (fuel : ℕ) (p : Bytes) → length p ≤ fuel → length (chunks fuel p) ≡ (length p + 59) / 60
unfolding chunks
length-chunks zero [] h = omega arith
length-chunks zero (b ∷ bs) h = absurd (omega arith)
length-chunks (suc fuel) [] h = omega arith
length-chunks (suc fuel) (b ∷ bs) h = omega (
  arith,
  length-drop payload_per_report (b ∷ bs),
  length-chunks fuel (drop payload_per_report (b ∷ bs))
      (omega (arith, length-drop payload_per_report (b ∷ bs))),
)
