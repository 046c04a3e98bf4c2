-- ===== src/Uploads/Init/Size.antt =====
-- The number of chunks of a new upload.
use native.Mathlib.Nat.{div-lt_iff_lt-mul}
use distributed_file_service.Prelude.{arith, ℕ, ◌*◌, ◌+◌, ◌-◌, ◌<◌, ◌↔◌, ◌/◌, ◌^◌, ◌≡◌, ◌≤◌}
use distributed_file_service.Text.{Text}
use distributed_file_service.World.{AuthUser, Service}
use distributed_file_service.Uploads.Init.{InitUploadRequest, ceil_div, chunk_size_of, new_upload}

quotient : (a b k : ℕ) → 0 < b → ((a + (b - 1)) / b ≤ k) ↔ (a ≤ k * b)
quotient a b k pos =
    let e : (k + 1) * b ≡ k * b + b = omega arith in
    let d = div-lt_iff_lt-mul {x = a + (b - 1)} {y = k + 1} pos in
    (λ h. omega (arith, d.0 (omega arith), e), λ h. omega (arith, d.1 (omega (arith, e))))

ceil_div-small : (a b : ℕ) → a ≤ 2 ^ 53 → ceil_div a b ≡ (a + (b - 1)) / b
unfolding ceil_div
ceil_div-small a b small = ground (arith, small)

ceil_div-le_iff : (a b k : ℕ) → a ≤ 2 ^ 53 → 0 < b → (ceil_div a b ≤ k) ↔ (a ≤ k * b)
ceil_div-le_iff a b k small pos = rw (ceil_div-small a b small) (quotient a b k pos)

-- A new upload of at most 2^53 bytes has the least number of chunks of its chunk size that hold the
-- file: `k` chunks hold it exactly when `k` is at least `total_chunks`, if the chunk size is not 0.
pub total_chunks-covers :
    {St Q : Type 0} (v : Service St Q) (id : Text) (r : InitUploadRequest) (user : AuthUser)
    (now k : ℕ)
    → r.file_size ≤ 2 ^ 53
    → 0 < chunk_size_of v.config r
    → let u = new_upload v id r user now in (u.total_chunks ≤ k) ↔ (u.file_size ≤ k * u.chunk_size)
total_chunks-covers v id r user now k small pos =
    ceil_div-le_iff r.file_size (chunk_size_of v.config r) k small pos
