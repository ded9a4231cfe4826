-- ===== src/Serial/Mesh/Overread.antt =====
-- How much of the blend weights src/util/util_remixapi.cpp copies, with the array that
-- ext/remix/remix_c.h asks for.
use native.Mathlib.Nat.{mul-le-mul_left, mul-le-mul_right}
use bridge_remix_mhfz.Base.{ℕ, zero, suc, ◌*◌, ◌<◌, ◌≤◌, ◌≡◌, ap, arith}
use bridge_remix_mhfz.Base.Words.{mul32, u32_mod}
use bridge_remix_mhfz.Serial.Mesh.{Skinning, blend_weights_size}

bones_le : (n b w : ℕ) → w ≡ n * b → 1 < w → b ≤ w
bones_le zero b w e h = absurd (omega (arith, e))
bones_le (suc n) b w e h = omega (arith, e)

total : (n b w : ℕ) → w ≡ n * b → n * (w * b * 4) ≡ w * (w * 4)
total n b w e = omega (arith, ap (λ (t : ℕ). t * (w * 4)) e)

-- With as many blend weights as ext/remix/remix_c.h asks for, one for each bone of each vertex, the
-- code copies as many bytes as that array has times the number of its elements: more than it has,
-- where that number is above one and nothing wraps.
pub blend_weights_size_overread :
    (n : ℕ) (s : Skinning)
    → s.blend_weights_count ≡ n * s.bones_per_vertex
    → 1 < s.blend_weights_count
    → s.blend_weights_count * s.blend_weights_count * 4 < u32_mod
    → (blend_weights_size n s ≡ s.blend_weights_count * (s.blend_weights_count * 4))
      × (s.blend_weights_count * 4 < blend_weights_size n s)
unfolding blend_weights_size
blend_weights_size_overread n s count many small =
    let w = s.blend_weights_count in
    let b = s.bones_per_vertex in
    let bounded : w * b ≤ w * w = mul-le-mul_left w (bones_le n b w count many) in
    let product : n * (w * b * 4) ≡ w * (w * 4) = total n b w count in
    let inner : mul32 w b ≡ w * b = omega (arith, bounded) in
    let per_vtx : mul32 (mul32 w b) 4 ≡ w * b * 4 = rw inner (omega (arith, bounded)) in
    let size : mul32 n (mul32 (mul32 w b) 4) ≡ w * (w * 4) = rw per_vtx (omega (arith, product)) in
    let more : 2 * (w * 4) ≤ w * (w * 4) = mul-le-mul_right (w * 4) many in
    (size, rw size (omega (arith, more)))
