-- ===== src/Media/Output/Patched.antt =====
-- A write puts its bytes in place, and leaves all others as they are.
use torrent_go.Media.Output.{MemWriter, copy_at, grown, write}
use torrent_go.Prelude.{
  ℕ, zero, suc, ◌+◌, ◌-◌, ◌≤◌, ◌<◌, ◌≡◌, refl, ap, ◌∙◌, ltb, if_both, none, List, [], ◌∷◌, ◌++◌,
  length, get_elem?, set, replicate, length-set, length-append, length-replicate,
  get_elem?-set_self, get_elem?-set_ne, arith,
}

length-copy_at : (buf : List ℕ) (at : ℕ) (p : List ℕ) → length (copy_at buf at p) ≡ length buf
unfolding copy_at
length-copy_at buf at [] = refl
length-copy_at buf at (b ∷ bs) = length-copy_at (set buf at b) (suc at) bs ∙ length-set buf at b

copied_before :
    (buf : List ℕ) (at : ℕ) (p : List ℕ) (i : ℕ)
    → i < at
    → get_elem? (copy_at buf at p) i ≡ get_elem? buf i
unfolding copy_at
copied_before buf at [] i h = refl
copied_before buf at (b ∷ bs) i h =
    copied_before (set buf at b) (suc at) bs i (omega arith)
    ∙ get_elem?-set_ne buf b (λ e. absurd (omega (arith, e)))

copied :
    (buf : List ℕ) (at : ℕ) (p : List ℕ) (j : ℕ)
    → j < length p
    → at + length p ≤ length buf
    → get_elem? (copy_at buf at p) (at + j) ≡ get_elem? p j
unfolding copy_at
copied buf at [] j h k = absurd (omega arith)
copied buf at (b ∷ bs) zero h k =
    ap (get_elem? (copy_at (set buf at b) (suc at) bs)) (omega arith)
    ∙ copied_before (set buf at b) (suc at) bs at (omega arith)
    ∙ get_elem?-set_self buf at b (omega arith)
copied buf at (b ∷ bs) (suc j) h k =
    ap (get_elem? (copy_at (set buf at b) (suc at) bs)) (omega arith)
    ∙ copied (set buf at b) (suc at) bs j (omega arith) (omega (arith, length-set buf at b))

copied_behind :
    (buf : List ℕ) (at : ℕ) (p : List ℕ) (i : ℕ)
    → at + length p ≤ i
    → get_elem? (copy_at buf at p) i ≡ get_elem? buf i
unfolding copy_at
copied_behind buf at [] i h = refl
copied_behind buf at (b ∷ bs) i h =
    copied_behind (set buf at b) (suc at) bs i (omega arith)
    ∙ get_elem?-set_ne buf b (λ e. absurd (omega (arith, e)))

get_elem?-appstopleft :
    (xs ys : List ℕ) (i : ℕ) → i < length xs → get_elem? (xs ++ ys) i ≡ get_elem? xs i
get_elem?-appstopleft [] ys i h = absurd (omega arith)
get_elem?-appstopleft (x ∷ xs) ys zero h = refl
get_elem?-appstopleft (x ∷ xs) ys (suc i) h = get_elem?-appstopleft xs ys i (omega arith)

grown_left : (buf : List ℕ) (n i : ℕ) → i < length buf → get_elem? (grown buf n) i ≡ get_elem? buf i
grown_left buf n i h =
    if_both (λ (b : List ℕ). get_elem? b i ≡ get_elem? buf i) (ltb (length buf) n)
      (λ c. get_elem?-appstopleft buf (replicate (n - length buf) 0) i h) (λ c. refl)

get_elem?-past : (xs : List ℕ) (i : ℕ) → length xs ≤ i → get_elem? xs i ≡ none
get_elem?-past [] i h = refl
get_elem?-past (x ∷ xs) zero h = absurd (omega arith)
get_elem?-past (x ∷ xs) (suc i) h = get_elem?-past xs i (omega arith)

grown-length :
    (buf : List ℕ) (n : ℕ) → (n ≤ length (grown buf n)) × (length (grown buf n) ≤ n + length buf)
grown-length buf n =
    if_both (λ (b : List ℕ). (n ≤ length b) × (length b ≤ n + length buf)) (ltb (length buf) n)
      (λ c.
        let l : length (buf ++ replicate (n - length buf) 0) ≡ length buf + (n - length buf) =
          length-append buf (replicate (n - length buf) 0)
          ∙ ap (λ (k : ℕ). length buf + k) (length-replicate (n - length buf) 0) in
        (ground (arith, l), ground (arith, l)))
      (λ c. (ground arith, omega arith))

-- After a write the bytes from the old position on are the new ones, each byte that stood before
-- them or behind them is as it was, and the position is behind the new bytes.
pub write-patches :
    (m : MemWriter) (p : List ℕ)
    → ((j : ℕ) → j < length p → get_elem? (write m p).buf (m.pos + j) ≡ get_elem? p j)
      × ((i : ℕ) → i < m.pos → i < length m.buf → get_elem? (write m p).buf i ≡ get_elem? m.buf i)
      × ((i : ℕ)
          → m.pos + length p ≤ i
          → i < length m.buf
          → get_elem? (write m p).buf i ≡ get_elem? m.buf i)
      × ((write m p).pos ≡ m.pos + length p)
unfolding write
write-patches m p =
    let stop = m.pos + length p in
    (
      λ j h. copied (grown m.buf stop) m.pos p j h (grown-length m.buf stop).0,
      λ i h k. copied_before (grown m.buf stop) m.pos p i h ∙ grown_left m.buf stop i k,
      λ i h k. copied_behind (grown m.buf stop) m.pos p i h ∙ grown_left m.buf stop i k,
      refl,
    )
