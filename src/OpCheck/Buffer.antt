-- ===== src/OpCheck/Buffer.antt =====
-- `cappedBuffer` and `countingDiscard` of internal/opcheck/opcheck.go, over bytes.
pub mod Capped
use op_forward.Prelude.{ℕ, zero, suc, ◌+◌, ◌-◌, List, [], ◌∷◌, ◌++◌, ltb, if◌then◌else◌, length}

abbrev pub stderr_cap_bytes : ℕ
stderr_cap_bytes = 4096

abbrev pub take {ℓ} : {A : Type ℓ} → ℕ → List A → List A
take zero xs = []
take (suc n) [] = []
take (suc n) (x ∷ xs) = x ∷ take n xs

-- `cappedBuffer.Write` for a given cap: the buffer afterwards and the count that is returned.
unfoldable pub write_within : ℕ → List ℕ → List ℕ → List ℕ × ℕ
write_within cap buf p =
    let room = cap - length buf in
    (
      if ltb 0 room then buf ++ take (if ltb (length p) room then length p else room) p else buf,
      length p,
    )

-- `countingDiscard.Write`.
unfoldable pub write_counted : ℕ → List ℕ → ℕ × ℕ
write_counted n p = (n + length p, length p)

-- A command's writes, one after another.
unfoldable pub write_all : ℕ → List ℕ → List (List ℕ) → List ℕ
unfolding write_within
write_all cap buf [] = buf
write_all cap buf (p ∷ ps) = write_all cap (write_within cap buf p).0 ps

unfoldable pub count_all : ℕ → List (List ℕ) → ℕ
unfolding write_counted
count_all n [] = n
count_all n (p ∷ ps) = count_all (write_counted n p).0 ps
