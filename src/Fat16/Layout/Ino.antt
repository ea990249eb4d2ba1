-- ===== src/Fat16/Layout/Ino.antt =====
-- The inode numbers of `fat16_make_ino`: the place of the entry on the volume, in bytes.
use native.Mathlib.Nat.{
  mul-le-mul, mul-add-div_right, div-add-mod', div-eq_of_lt, add-mul, mul_assoc,
}
use doomsday_kernel_modules.Base.{ℕ, ◌+◌, ◌*◌, ◌/◌, ◌%◌, ◌^◌, ◌≤◌, ◌<◌, ◌≡◌, sym, ap, ◌∙◌, arith}
use doomsday_kernel_modules.Fat16.Layout.{
  fat16_entries_per_sector, fat16_entry_sector, fat16_entry_idx, fat16_make_ino,
}

-- No wrap for sectors of fewer than 2^16 bytes.
ino_exact :
    (b s i : ℕ) → b < 2 ^ 16 → s < 2 ^ 32 → i * 32 < b → fat16_make_ino b s i ≡ s * b + i * 32
unfolding fat16_make_ino
ino_exact b s i hb hs hi =
    let size : s * b ≤ (2 ^ 32) * (2 ^ 16) =
      mul-le-mul {n₂ = 2 ^ 32} {m₂ = 2 ^ 16} (omega arith) (omega arith) in
    omega (arith, size)

ino_sector : (b s i : ℕ) → i * 32 < b → (s * b + i * 32) / b ≡ s
ino_sector b s i hi =
    let inner : i * 32 / b ≡ 0 = div-eq_of_lt hi in
    mul-add-div_right (omega arith) s (i * 32) ∙ omega (arith, inner)

-- Where sectors have fewer than 2^16 bytes, two entries that lie in sectors below 2^32, at indices
-- inside the sector, have the same inode number only where they are the same entry of the same
-- sector.
pub fat16_make_ino_injective :
    (bytes_per_sector s t i j : ℕ)
    → bytes_per_sector < 2 ^ 16
    → s < 2 ^ 32
    → t < 2 ^ 32
    → i < fat16_entries_per_sector bytes_per_sector
    → j < fat16_entries_per_sector bytes_per_sector
    → fat16_make_ino bytes_per_sector s i ≡ fat16_make_ino bytes_per_sector t j
    → (s ≡ t) × (i ≡ j)
unfolding fat16_entries_per_sector
fat16_make_ino_injective b s t i j hb hs ht hi hj e =
    let li : i * 32 < b = omega arith in
    let lj : j * 32 < b = omega arith in
    let places = sym (ino_exact b s i hb hs li) ∙ e ∙ ino_exact b t j hb ht lj in
    let same : s ≡ t =
      sym (ino_sector b s i li) ∙ ap (λ (n : ℕ). n / b) places ∙ ino_sector b t j lj in
    (same, omega (arith, places, ap (λ (n : ℕ). n * b) same))

-- Where the sectors consist of whole entries and the number of the sector stays below 2^32, the
-- sector and the index that the walk gives to the i-th entry of a cluster lead to the inode number
-- of the place 32 * i bytes behind the start of the cluster.
pub fat16_make_ino-place :
    (eps cluster_sector i : ℕ)
    → 0 < eps
    → cluster_sector + i / eps < 2 ^ 32
    → fat16_make_ino (eps * 32) (fat16_entry_sector cluster_sector i eps) (fat16_entry_idx i eps)
      ≡ (cluster_sector * (eps * 32) + i * 32) % 2 ^ 64
unfolding fat16_make_ino fat16_entry_sector fat16_entry_idx
fat16_make_ino-place eps cluster_sector i pos inside =
    let whole : (cluster_sector + i / eps) % 2 ^ 32 ≡ cluster_sector + i / eps = omega arith in
    let parts = div-add-mod' i eps in
    let split = add-mul cluster_sector (i / eps) (eps * 32) in
    let sectors = mul_assoc (i / eps) eps 32 in
    let place : (cluster_sector + i / eps) * (eps * 32) + i % eps * 32
        ≡ cluster_sector * (eps * 32) + i * 32 =
      omega (arith, parts, split, sectors) in
    rw (whole, place)
