-- ===== src/Checksum/Chunks.antt =====
-- The buffers do not show in the checksum.
use dicon.Base.{
  ℕ, zero, suc, ◌<◌, ◌≡◌, refl, ◌∙◌, sym, ap, some, [], ◌∷◌, ◌++◌, arith, length, take, drop,
  take-append-drop, length-drop,
}
use dicon.Wire.{Bytes}
use dicon.Checksum.{add_byte, add_buffer, buffer_size, checksum_loop, dic_checksum}

add_buffer-append :
    (sum : ℕ) (xs ys : Bytes) → add_buffer sum (xs ++ ys) ≡ add_buffer (add_buffer sum xs) ys
unfolding add_buffer
add_buffer-append sum [] ys = refl
add_buffer-append sum (x ∷ xs) ys = add_buffer-append (add_byte sum x) xs ys

checksum_loop-eq-add_buffer :
    (size rounds sum : ℕ) (file : Bytes)
    → 0 < size
    → length file < rounds
    → checksum_loop size rounds sum file ≡ some (add_buffer sum file)
unfolding checksum_loop
checksum_loop-eq-add_buffer size zero sum file pos h = absurd (omega arith)
checksum_loop-eq-add_buffer size (suc rounds) sum [] pos h = unfold add_buffer in refl
checksum_loop-eq-add_buffer size (suc rounds) sum (b ∷ bs) pos h =
    checksum_loop-eq-add_buffer size rounds (add_buffer sum (take size (b ∷ bs)))
      (drop size (b ∷ bs)) pos (omega (arith, length-drop size (b ∷ bs)))
    ∙ ap some (
        sym (add_buffer-append sum (take size (b ∷ bs)) (drop size (b ∷ bs)))
        ∙ ap (add_buffer sum) (take-append-drop size (b ∷ bs)))

-- For every file `dic_checksum` ends, and the checksum is that of all its bytes in one pass, wherever
-- the buffers of 4096 bytes divide them.
pub dic_checksum-eq-add_buffer :
    (file : Bytes) → dic_checksum (some file) ≡ some (add_buffer 0 file)
unfolding dic_checksum
dic_checksum-eq-add_buffer file =
    checksum_loop-eq-add_buffer buffer_size (suc (length file)) 0 file (omega arith) (omega arith)
