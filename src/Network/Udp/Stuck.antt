-- ===== src/Network/Udp/Stuck.antt =====
-- When a read returns, of kernel/network/schemes/udp/main.rs.
use redox.Prelude.{
  ℕ, zero, suc, ◌<◌, ◌≡◌, refl, true, ◌&&◌, List, [], ◌∷◌, none, some, length, arith, set, get_or,
  ltb, length-set,
}
use redox.Prelude.Results.{ok}
use redox.Network.Link.{Resource}
use redox.Network.Udp.{UdpResource, copy_loop, copied, copies, returned, read}

copy_loop-stuck :
    (fuel : ℕ) (buf bytes : List ℕ)
    → 0 < length buf
    → 0 < length bytes
    → copy_loop fuel 0 buf bytes ≡ none
unfolding copy_loop
copy_loop-stuck zero buf bytes b d = refl
copy_loop-stuck (suc fuel) buf bytes b d =
    let more : (ltb 0 (length buf) && ltb 0 (length bytes)) ≡ true = ground arith in
    let b' = set buf 0 (get_or bytes 0 0) in
    rw more (copy_loop-stuck fuel b' bytes (omega (arith, length-set buf 0 (get_or bytes 0 0))) d)

copy_loop-empty : (fuel : ℕ) (bytes : List ℕ) → copy_loop (suc fuel) 0 [] bytes ≡ some ([], 0)
unfolding copy_loop
copy_loop-empty fuel bytes = refl

module _ {ℓ} {S : Type ℓ} (below : Resource S) (r : UdpResource S) where
  -- Where data is pending, `read` returns for no fuel if the buffer is not empty: its loop does not
  -- count. Into an empty buffer it returns 0, and the data is lost.
  pub read-pending :
      (fuel b : ℕ) (bs buf : List ℕ)
      → 0 < length buf
      → (read below fuel (record r { pending = b ∷ bs }) buf ≡ copies)
        × (read below (suc fuel) (record r { pending = b ∷ bs }) []
            ≡ returned [] (ok 0) (record r { pending = [] }))
  unfolding read copied
  read-pending fuel b bs buf h =
      (rw (read, copied, copy_loop-stuck fuel buf (b ∷ bs) h (omega arith)) refl, refl)
