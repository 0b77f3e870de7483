-- ===== src/Padding.antt =====
-- protocol/core/transport/padding.go: the padding of frames and packets. A random number and the
-- random bytes are arguments; `noise n` stands for n bytes of rand.Read.
pub mod Laws
use stealthlink.Prelude.{
  Bool, Bytes, List, [], if◌then◌else◌, leb, length, not, ℕ, ◌%◌, ◌++◌, ◌+◌, ◌-◌, ◌∷◌,
}
use stealthlink.Wire.Frames.{Frame}

pub record PaddingConfig : Type 0 where
  pub enabled : Bool
  pub min_padding_bytes : ℕ
  pub max_padding_bytes : ℕ

-- randomInt, of a draw below max - min + 1.
unfoldable pub random_int : ℕ → ℕ → ℕ → ℕ
random_int least most draw = if leb most least then least else least + draw % (most - least + 1)

-- WrapFrame, of a frame, the padding's size and the padding.
unfoldable pub padded_frame : Frame → ℕ → Bytes → Frame
padded_frame f padding_size padding = record {
  frame_type = f.frame_type;
  payload = f.frame_type ∷ (padding_size % 256) ∷ (f.payload ++ padding);
}

unfoldable pub wrap_frame : PaddingConfig → ℕ → (ℕ → Bytes) → Frame → Frame
unfolding random_int padded_frame
wrap_frame config draw noise f =
    if not config.enabled
    then f
    else let padding_size = random_int config.min_padding_bytes config.max_padding_bytes draw in
      padded_frame f padding_size (noise padding_size)

abbrev pub largest_size : ℕ
largest_size = 16384

abbrev pub common_sizes : List ℕ
common_sizes = 64 ∷ 128 ∷ 256 ∷ 512 ∷ 576 ∷ 1024 ∷ 1460 ∷ 4096 ∷ 8192 ∷ largest_size ∷ []

-- The first size that is enough, else the last of all.
unfoldable pub target_size : List ℕ → ℕ → ℕ
target_size [] n = largest_size
target_size (s ∷ sizes) n = let rest = target_size sizes n in if leb n s then s else rest

unfoldable pub normalize_packet_size : (ℕ → Bytes) → Bytes → Bytes
unfolding target_size
normalize_packet_size noise bytes =
    let target = target_size common_sizes (length bytes) in
    if leb target (length bytes) then bytes else bytes ++ noise (target - length bytes)
