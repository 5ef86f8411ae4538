-- ===== src/Storage/MemPiece/Lists.antt =====
-- Reading a list by index: slices, overwritten ranges, the bitmap of written blocks.
use torrent_go.Prelude.{
  ℕ, zero, suc, ◌+◌, ◌-◌, ◌≤◌, ◌<◌, ◌≡◌, refl, sym, ap, ◌∙◌, arith, List, [], ◌∷◌, ◌++◌, length,
  get_elem?, take, drop, length-append, length-take, length-drop,
}

module _ {ℓ} {A : Type ℓ} where
  pub get_elem?-take :
      (n : ℕ) (xs : List A) (k : ℕ) → k < n → get_elem? (take n xs) k ≡ get_elem? xs k
  get_elem?-take zero xs k h = absurd (omega arith)
  get_elem?-take (suc n) [] k h = refl
  get_elem?-take (suc n) (x ∷ xs) zero h = refl
  get_elem?-take (suc n) (x ∷ xs) (suc k) h = get_elem?-take n xs k (omega arith)

  pub get_elem?-drop :
      (n : ℕ) (xs : List A) (k : ℕ) → get_elem? (drop n xs) k ≡ get_elem? xs (n + k)
  get_elem?-drop zero xs k = let e : 0 + k ≡ k = omega arith in rw e
  get_elem?-drop (suc n) [] k = refl
  get_elem?-drop (suc n) (x ∷ xs) k =
      let e : suc n + k ≡ suc (n + k) = omega arith in rw e (get_elem?-drop n xs k)

  pub get_elem?-append_left :
      (xs ys : List A) (k : ℕ) → k < length xs → get_elem? (xs ++ ys) k ≡ get_elem? xs k
  get_elem?-append_left [] ys k h = absurd (omega arith)
  get_elem?-append_left (x ∷ xs) ys zero h = refl
  get_elem?-append_left (x ∷ xs) ys (suc k) h = get_elem?-append_left xs ys k (omega arith)

  pub get_elem?-append_right :
      (xs ys : List A) (k : ℕ) → get_elem? (xs ++ ys) (length xs + k) ≡ get_elem? ys k
  get_elem?-append_right [] ys k = let e : 0 + k ≡ k = omega arith in rw e
  get_elem?-append_right (x ∷ xs) ys k =
      let e : suc (length xs) + k ≡ suc (length xs + k) = omega arith in
      rw e (get_elem?-append_right xs ys k)

  pub take_all : (xs : List A) → take (length xs) xs ≡ xs
  take_all [] = refl
  take_all (x ∷ xs) = ap (◌∷◌ x) (take_all xs)

  -- Two lists of one length that agree at every index are equal.
  pub ext :
      (xs ys : List A)
      → length xs ≡ length ys
      → ((k : ℕ) → k < length xs → get_elem? xs k ≡ get_elem? ys k)
      → xs ≡ ys
  ext [] [] e h = refl
  ext [] (y ∷ ys) e h = absurd (omega arith)
  ext (x ∷ xs) [] e h = absurd (omega arith)
  ext (x ∷ xs) (y ∷ ys) e h =
      let same : x ≡ y = cc (h 0 (omega arith)) in
      let rest : xs ≡ ys = ext xs ys (omega arith) (λ k p. h (suc k) (omega arith)) in
      cc (same, rest)

  -- A range of the buffer is overwritten: at `k` it holds the new bytes inside, the old ones outside.
  pub get_elem?-splice_inside :
      (off n : ℕ) (p b : List A) (k : ℕ)
      → off ≤ length b
      → n ≤ length p
      → off ≤ k
      → k < off + n
      → get_elem? (take off b ++ (take n p ++ drop (off + n) b)) k ≡ get_elem? p (k - off)
  get_elem?-splice_inside off n p b k ho hn lo hi =
      let len : length (take off b) ≡ off = omega (arith, length-take off b) in
      let e : k ≡ length (take off b) + (k - off) = omega arith in
      let right = get_elem?-append_right (take off b) (take n p ++ drop (off + n) b) (k - off) in
      let inner : k - off < length (take n p) = omega (arith, length-take n p) in
      ap (λ j. get_elem? (take off b ++ (take n p ++ drop (off + n) b)) j) e
      ∙ right
      ∙ get_elem?-append_left (take n p) (drop (off + n) b) (k - off) inner
      ∙ get_elem?-take n p (k - off) (omega arith)

  pub get_elem?-splice_below :
      (off n : ℕ) (p b : List A) (k : ℕ)
      → off ≤ length b
      → k < off
      → get_elem? (take off b ++ (take n p ++ drop (off + n) b)) k ≡ get_elem? b k
  get_elem?-splice_below off n p b k ho h =
      get_elem?-append_left (take off b) (take n p ++ drop (off + n) b) k
        (omega (arith, length-take off b))
      ∙ get_elem?-take off b k h

  pub get_elem?-splice_above :
      (off n : ℕ) (p b : List A) (k : ℕ)
      → off ≤ length b
      → n ≤ length p
      → off + n ≤ k
      → get_elem? (take off b ++ (take n p ++ drop (off + n) b)) k ≡ get_elem? b k
  get_elem?-splice_above off n p b k ho hn h =
      let len : length (take off b) ≡ off = omega (arith, length-take off b) in
      let len' : length (take n p) ≡ n = omega (arith, length-take n p) in
      let e : k ≡ length (take off b) + (length (take n p) + (k - (off + n))) = omega arith in
      let f : off + n + (k - (off + n)) ≡ k = omega arith in
      ap (λ j. get_elem? (take off b ++ (take n p ++ drop (off + n) b)) j) e
      ∙ get_elem?-append_right (take off b) (take n p ++ drop (off + n) b)
          (length (take n p) + (k - (off + n)))
      ∙ get_elem?-append_right (take n p) (drop (off + n) b) (k - (off + n))
      ∙ get_elem?-drop (off + n) b (k - (off + n))
      ∙ ap (get_elem? b) f

  -- Lists that agree on a range have equal slices there.
  pub slice_ext :
      (off n : ℕ) (xs ys : List A)
      → length xs ≡ length ys
      → ((k : ℕ) → off ≤ k → k < off + n → get_elem? xs k ≡ get_elem? ys k)
      → take n (drop off xs) ≡ take n (drop off ys)
  slice_ext off n xs ys e h =
      ext (take n (drop off xs)) (take n (drop off ys))
        (omega (
          arith,
          length-take n (drop off xs),
          length-take n (drop off ys),
          length-drop off xs,
          length-drop off ys,
        ))
        (λ k p.
          let k_lt : k < n = omega (arith, length-take n (drop off xs)) in
          get_elem?-take n (drop off xs) k k_lt
          ∙ get_elem?-drop off xs k
          ∙ h (off + k) (omega arith) (omega arith)
          ∙ sym (get_elem?-take n (drop off ys) k k_lt ∙ get_elem?-drop off ys k))

  pub length-splice :
      (off n : ℕ) (p b : List A)
      → off + n ≤ length b
      → n ≤ length p
      → length (take off b ++ (take n p ++ drop (off + n) b)) ≡ length b
  length-splice off n p b h k = omega (
    arith,
    length-append (take off b) (take n p ++ drop (off + n) b),
    length-append (take n p) (drop (off + n) b),
    length-take off b,
    length-take n p,
    length-drop (off + n) b,
  )
