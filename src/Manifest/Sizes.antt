-- ===== src/Manifest/Sizes.antt =====
-- model_scheduler.rs, `ModelPackage`: the sizes of a download and of the disk space for it.
use ale_my_eyes_desktop.Prelude.{
  ℕ, ◌+◌, ◌*◌, ◌^◌, ◌<◌, ◌≡◌, inl, inr, Bool-cases, List, [], ◌∷◌, ltb, if◌then◌else◌, arith,
}
use ale_my_eyes_desktop.Prelude.Result.{ok, err}
use ale_my_eyes_desktop.Manifest.{
  ModelArtifact, ModelPackage, size_overflows, disk_requirement_overflows, add_sizes,
  download_size_bytes, required_disk_bytes,
}

-- The sum of the sizes, without a width.
abbrev pub sum_sizes : List ModelArtifact → ℕ
sum_sizes [] = 0
sum_sizes (a ∷ rest) = a.size_bytes + sum_sizes rest

add_sizes-sum :
    (total : ℕ) (artifacts : List ModelArtifact)
    → total < 2 ^ 64
    → add_sizes total artifacts ≡ (
        if ltb (total + sum_sizes artifacts) (2 ^ 64)
        then ok (total + sum_sizes artifacts)
        else err size_overflows)
unfolding add_sizes
add_sizes-sum total [] small = ground arith
add_sizes-sum total (a ∷ rest) small =
    let all : total + a.size_bytes + sum_sizes rest ≡ total + (a.size_bytes + sum_sizes rest) =
      omega arith in
    elim (Bool-cases (ltb (total + a.size_bytes) (2 ^ 64))) [
      | inl fits ↦
          let tail = add_sizes-sum (total + a.size_bytes) rest (ground (arith, fits)) in
          ground (arith, fits, tail, all)
      | inr over ↦ ground (arith, over)
    ]

-- A package's download size is the sum of its artifacts' sizes, and its disk requirement is twice
-- that. Each is an error exactly if it does not fit in 64 bits; the disk requirement reports the
-- download's own overflow first.
pub required_disk_bytes-sum :
    (p : ModelPackage)
    → (download_size_bytes p ≡ (
        if ltb (sum_sizes p.artifacts) (2 ^ 64)
        then ok (sum_sizes p.artifacts)
        else err size_overflows))
      × (required_disk_bytes p ≡ (
          if ltb (2 * sum_sizes p.artifacts) (2 ^ 64)
          then ok (2 * sum_sizes p.artifacts)
          else if ltb (sum_sizes p.artifacts) (2 ^ 64)
          then err disk_requirement_overflows
          else err size_overflows))
unfolding required_disk_bytes download_size_bytes
required_disk_bytes-sum p = ground (arith, add_sizes-sum 0 p.artifacts (omega arith))
