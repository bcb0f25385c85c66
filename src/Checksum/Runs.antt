-- ===== src/Checksum/Runs.antt =====
-- The checksum of concrete files.
use dicon.Base.{◌≡◌, refl, none, some, [], ◌∷◌}
use dicon.Checksum.{add_buffer, checksum_loop, dic_checksum}
use dicon.Checksum.Chunks.{dic_checksum-eq-add_buffer}

three_bytes : dic_checksum (some (1 ∷ 2 ∷ 0xff ∷ [])) ≡ some 0xff
unfolding dic_checksum checksum_loop add_buffer
three_bytes = refl

no_file : dic_checksum none ≡ some 0
unfolding dic_checksum
no_file = refl

dic_checksum-eq-add_buffer_example :
    dic_checksum (some (1 ∷ 2 ∷ 0xff ∷ [])) ≡ some (add_buffer 0 (1 ∷ 2 ∷ 0xff ∷ []))
dic_checksum-eq-add_buffer_example = dic_checksum-eq-add_buffer (1 ∷ 2 ∷ 0xff ∷ [])
