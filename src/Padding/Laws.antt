-- ===== src/Padding/Laws.antt =====
-- What padding keeps and what it hides.
use mathlib.Core.Path.{subst}
use stealthlink.Prelude.{
  All, Bool, Bool-cases, Bytes, List, [], arith, false, inl, inr, leb, leb→le, length,
  length-append, refl, take, take-append, take_all, true, ℕ, ◌%◌, ◌++◌, ◌-◌, ◌<◌, ◌==◌, ◌||◌, ◌∷◌,
  ◌≡◌, ◌≤◌, ◌⊎◌,
}
use stealthlink.Wire.Frames.{Frame}
use stealthlink.Padding.{
  PaddingConfig, padded_frame, common_sizes, random_int, normalize_packet_size, wrap_frame,
  largest_size, target_size,
}

unfoldable pub is_common : List ℕ → ℕ → Bool
is_common [] n = false
is_common (s ∷ sizes) n = s == n || is_common sizes n

-- The target is a size of the list that is enough, or no size of the list is.
target_cases :
    (sizes : List ℕ) (n : ℕ)
    → ((n ≤ target_size sizes n) × (is_common sizes (target_size sizes n) ≡ true))
      ⊎ ((target_size sizes n ≡ largest_size) × All (λ s. s < n) sizes)
unfolding target_size is_common
target_cases [] n = inr (refl, tt)
target_cases (s ∷ sizes) n = elim (Bool-cases (leb n s)) [
  | inl enough ↦ rw enough (inl (leb→le _ _ enough, ground arith))
  | inr short ↦ rw short (elim (target_cases sizes n) [
    | inl (le, common) ↦ inl (le, ground (arith, common))
    | inr (last, all) ↦ inr (last, (ground (arith, short), all))
  ])
]

unchanged :
    (noise : ℕ → Bytes) (bytes : Bytes)
    → target_size common_sizes (length bytes) ≤ length bytes
    → normalize_packet_size noise bytes ≡ bytes
unfolding normalize_packet_size
unchanged noise bytes h = ground (arith, h)

filled :
    (noise : ℕ → Bytes) (bytes : Bytes)
    → length bytes < target_size common_sizes (length bytes)
    → normalize_packet_size noise bytes
      ≡ bytes ++ noise (target_size common_sizes (length bytes) - length bytes)
unfolding normalize_packet_size
filled noise bytes h = ground (arith, h)

-- A normalized packet starts with the packet, and its length is one of the common sizes, unless
-- the packet is longer than all of them and stays as it is; the noise that is asked for must be
-- of the length that was asked.
pub normalize_packet_size_lem :
    (noise : ℕ → Bytes) (bytes : Bytes)
    → ((n : ℕ) → length (noise n) ≡ n)
    → (take (length bytes) (normalize_packet_size noise bytes) ≡ bytes)
      × ((is_common common_sizes (length (normalize_packet_size noise bytes)) ≡ true)
          ⊎ ((largest_size < length bytes) × (normalize_packet_size noise bytes ≡ bytes)))
normalize_packet_size_lem noise bytes h =
    let target = target_size common_sizes (length bytes) in
    elim (Bool-cases (leb target (length bytes))) [
      | inl small ↦
          let same = unchanged noise bytes (leb→le _ _ small) in
          rw same (
            take_all (length bytes) bytes (omega arith),
            elim (target_cases common_sizes (length bytes)) [
              | inl (enough, common) ↦
                  let equal : target ≡ length bytes = omega (arith, leb→le _ _ small, enough) in
                  inl (subst (λ n. is_common common_sizes n ≡ true) equal common)
              | inr (last, all) ↦ inr (omega (arith, all), refl)
            ],
          )
      | inr large ↦
          let room : length bytes < target = ground (arith, large) in
          let more = filled noise bytes room in
          let size : length (bytes ++ noise (target - length bytes)) ≡ target = omega (
            arith,
            length-append bytes (noise (target - length bytes)),
            h (target - length bytes),
          ) in
          rw (more, size)
            (
              take-append (length bytes) bytes _ refl,
              elim (target_cases common_sizes (length bytes)) [
                | inl (enough, common) ↦ inl common
                | inr (last, all) ↦ absurd (omega (arith, all, last))
              ],
            )
    ]

-- A wrapped frame keeps its type, which also stands in front of the payload; then come the lowest
-- eight bits of the padding's size, the payload, and padding of a size between the two bounds.
pub wrap_frame_lem :
    (config : PaddingConfig) (draw : ℕ) (noise : ℕ → Bytes) (f : Frame)
    → config.enabled ≡ true
    → config.min_padding_bytes ≤ config.max_padding_bytes
    → (size : ℕ) × (config.min_padding_bytes ≤ size)
      × (size ≤ config.max_padding_bytes)
      × (wrap_frame config draw noise f ≡ record {
        frame_type = f.frame_type;
        payload = f.frame_type ∷ (size % 256) ∷ (f.payload ++ noise size);
      })
unfolding wrap_frame random_int padded_frame
wrap_frame_lem config draw noise f on order = (
  random_int config.min_padding_bytes config.max_padding_bytes draw,
  unfold random_int in ground (arith, order),
  unfold random_int in ground (arith, order),
  rw on refl,
)
