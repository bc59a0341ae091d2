-- ===== src/OpCheck/Buffer/Capped.antt =====
-- The capped buffer holds the first 4096 bytes, however they were written.
use op_forward.OpCheck.Buffer.{take, write_within, write_all, count_all}
use op_forward.Prelude.{
  ℕ, zero, suc, ◌+◌, ◌-◌, ◌≤◌, ◌≡◌, refl, sym, ap, ◌∙◌, inl, inr, List, [], ◌∷◌, ◌++◌, append-nil,
  append_assoc, arith, ltb, leb, if◌then◌else◌, Bool-cases, length, length-append,
}

-- All that was written.
abbrev pub concat : List (List ℕ) → List ℕ
concat [] = []
concat (p ∷ ps) = p ++ concat ps

take-append : (n : ℕ) (xs ys : List ℕ) → take n (xs ++ ys) ≡ take n xs ++ take (n - length xs) ys
take-append zero xs ys = let e : 0 - length xs ≡ 0 = omega arith in rw e
take-append (suc n) [] ys = let e : suc n - 0 ≡ suc n = omega arith in rw e
take-append (suc n) (x ∷ xs) ys =
    let e : suc n - suc (length xs) ≡ n - length xs = omega arith in
    rw e (ap (λ t. x ∷ t) (take-append n xs ys))

take_all : (n : ℕ) (xs : List ℕ) → length xs ≤ n → take n xs ≡ xs
take_all zero [] h = refl
take_all zero (x ∷ xs) h = absurd (omega arith)
take_all (suc n) [] h = refl
take_all (suc n) (x ∷ xs) h = ap (λ t. x ∷ t) (take_all n xs (omega arith))

length-take : (n : ℕ) (xs : List ℕ) → length (take n xs) ≤ n
length-take zero xs = omega arith
length-take (suc n) [] = omega arith
length-take (suc n) (x ∷ xs) = omega (arith, length-take n xs)

min-length : (cap : ℕ) (xs : List ℕ) → cap ≤ length xs → length (take cap xs) ≡ cap
min-length zero xs h = refl
min-length (suc n) [] h = absurd (omega arith)
min-length (suc n) (x ∷ xs) h = omega (arith, min-length n xs)

-- The room that is left does not depend on how much more than the cap was written.
room-take : (cap : ℕ) (xs : List ℕ) → cap - length (take cap xs) ≡ cap - length xs
room-take cap xs = elim (Bool-cases (leb (length xs) cap)) [
  | inl fits ↦ ap (λ t. cap - length t) (take_all cap xs (ground arith))
  | inr over ↦ ground (arith, min-length cap xs)
]

take-room :
    (room : ℕ) (p : List ℕ) → take (if ltb (length p) room then length p else room) p ≡ take room p
take-room room p = elim (Bool-cases (ltb (length p) room)) [
  | inl fits ↦ rw fits (take_all (length p) p (omega arith) ∙ sym (take_all room p (ground arith)))
  | inr over ↦ rw over
]

write_within-take :
    (cap : ℕ) (done p : List ℕ) → (write_within cap (take cap done) p).0 ≡ take cap (done ++ p)
unfolding write_within
write_within-take cap done p =
    rw (room-take cap done, take-room (cap - length done) p, take-append cap done p)
      (kept (cap - length done) (take cap done) p)
  where
    kept :
        (room : ℕ) (buf p : List ℕ)
        → (if ltb 0 room then buf ++ take room p else buf) ≡ buf ++ take room p
    kept zero buf p = sym (append-nil buf)
    kept (suc room) buf p = ground arith

write_all-take :
    (cap : ℕ) (done : List ℕ) (ps : List (List ℕ))
    → write_all cap (take cap done) ps ≡ take cap (done ++ concat ps)
unfolding write_all
write_all-take cap done [] = rw append-nil
write_all-take cap done (p ∷ ps) =
    rw (write_within-take cap done p)
      (write_all-take cap (done ++ p) ps ∙ ap (take cap) (append_assoc done p (concat ps)))

take-nil : (n : ℕ) → take {A = ℕ} n [] ≡ []
take-nil zero = refl
take-nil (suc n) = refl

-- Starting empty, a buffer of any cap ends up with exactly the first bytes up to its cap of all
-- that was written, in whatever pieces; so it never holds more than the cap, and nothing is cut
-- that fits.
pub write_all_first :
    (cap : ℕ) (ps : List (List ℕ))
    → (write_all cap [] ps ≡ take cap (concat ps))
      × (length (write_all cap [] ps) ≤ cap)
      × (length (concat ps) ≤ cap → write_all cap [] ps ≡ concat ps)
write_all_first cap ps =
    let e = write_all_from_nil cap ps in
    (e, rw e (length-take cap (concat ps)), λ h. e ∙ take_all cap (concat ps) h)
  where
    write_all_from_nil : (cap : ℕ) (ps : List (List ℕ)) → write_all cap [] ps ≡ take cap (concat ps)
    write_all_from_nil cap ps =
        ap (λ b. write_all cap b ps) (sym (take-nil cap)) ∙ write_all-take cap [] ps

-- The counter ends at the number of all bytes, so it is 0 exactly if nothing was printed.
pub count_all_total : (n : ℕ) (ps : List (List ℕ)) → count_all n ps ≡ n + length (concat ps)
unfolding count_all
count_all_total n [] = omega arith
count_all_total n (p ∷ ps) =
    omega (arith, count_all_total (n + length p) ps, length-append p (concat ps))
