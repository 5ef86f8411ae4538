-- ===== src/Handlers/Hls/Playlist/Target.antt =====
-- The target duration of a media playlist is the least whole number of seconds that bounds every
-- segment.
use torrent_go.Handlers.Hls.Playlist.{longest_from, longest, target_duration}
use torrent_go.Handlers.SegGrid.{SegList, count, extinf}
use torrent_go.Prelude.{
  ℕ, zero, suc, ◌+◌, ◌*◌, ◌/◌, ◌≤◌, ◌<◌, ◌≡◌, ◌∙◌, ◌⊎◌, ltb, refl, inl, inr, Bool-cases,
  if◌then◌else◌, true, false, arith,
}
use torrent_go.Prelude.Int.{ℤ, pos, negsuc, pos_part, ◌≤ℤ◌, ◌+ℤ◌, ltb_ℤ, int_laws}

ltb_ℤ-le : (a b : ℤ) → ltb_ℤ a b ≡ true → a ≤ℤ b
ltb_ℤ-le a b h = ground arith

not-ltb_ℤ-le : (a b : ℤ) → ltb_ℤ a b ≡ false → b ≤ℤ a
not-ltb_ℤ-le a b h = ground arith

rounded_up : (d : ℤ) → pos 0 ≤ℤ d → pos (1000 * ((pos_part d + 999) / 1000)) ≤ℤ d +ℤ pos 999
rounded_up (pos n) h = omega int_laws
rounded_up (negsuc n) h = absurd (omega arith)

module _ (sl : SegList) where
  longer : ℤ → ℕ → ℤ
  longer d i = if ltb_ℤ d (extinf sl (pos i)) then extinf sl (pos i) else d

  le-longer : (d : ℤ) (i : ℕ) → (d ≤ℤ longer d i) × (extinf sl (pos i) ≤ℤ longer d i)
  unfolding longer
  le-longer d i = elim (Bool-cases (ltb_ℤ d (extinf sl (pos i)))) [
    | inl h ↦ rw h (ltb_ℤ-le d (extinf sl (pos i)) h, omega arith)
    | inr h ↦ rw h (omega arith, not-ltb_ℤ-le d (extinf sl (pos i)) h)
  ]

  longer-cases : (d : ℤ) (i : ℕ) → (longer d i ≡ d) ⊎ (longer d i ≡ extinf sl (pos i))
  unfolding longer
  longer-cases d i = elim (Bool-cases (ltb_ℤ d (extinf sl (pos i)))) [
    | inl h ↦ inr (rw h)
    | inr h ↦ inl (rw h)
  ]

  le-longest : (rounds i : ℕ) (d : ℤ) → d ≤ℤ longest_from rounds sl i d
  unfolding longest_from longer
  le-longest zero i d = omega arith
  le-longest (suc rounds) i d =
      omega (int_laws, (le-longer d i).0, le-longest rounds (suc i) (longer d i))

  extinf-le :
      (rounds i j : ℕ) (d : ℤ)
      → i ≤ j
      → j < i + rounds
      → extinf sl (pos j) ≤ℤ longest_from rounds sl i d
  unfolding longest_from longer
  extinf-le zero i j d h k = absurd (omega arith)
  extinf-le (suc rounds) i j d h k = elim (Bool-cases (ltb i j)) [
    | inl later ↦ extinf-le rounds (suc i) j (longer d i) (ground arith) (omega arith)
    | inr here ↦
        let e : i ≡ j = ground arith in
        rw (← e) (omega (int_laws, (le-longer d i).1, le-longest rounds (suc i) (longer d i)))
  ]

  longest-cases :
      (rounds i : ℕ) (d : ℤ)
      → (longest_from rounds sl i d ≡ d)
        ⊎ ((j : ℕ) × (j < i + rounds) × (longest_from rounds sl i d ≡ extinf sl (pos j)))
  unfolding longest_from longer
  longest-cases zero i d = inl refl
  longest-cases (suc rounds) i d = elim (longest-cases rounds (suc i) (longer d i)) [
    | inl e ↦ elim (longer-cases d i) [
      | inl same ↦ inl (e ∙ same)
      | inr new ↦ inr (i, omega arith, e ∙ new)
    ]
    | inr (j, h, e) ↦ inr (j, omega arith, e)
  ]

  -- Every segment is at most as long as the target duration, and the target is either 0 or less than
  -- one second above the length of a certain segment.
  pub target_duration-least :
      ((i : ℕ) → i < count sl → extinf sl (pos i) ≤ℤ pos (1000 * target_duration sl))
      × ((target_duration sl ≡ 0)
          ⊎ ((i : ℕ) × (i < count sl)
              × (pos (1000 * target_duration sl) ≤ℤ extinf sl (pos i) +ℤ pos 999)))
  unfolding target_duration longest
  target_duration-least = (
    λ i h. omega (int_laws, extinf-le (count sl) 0 i (pos 0) (omega arith) (omega arith)),
    elim (longest-cases (count sl) 0 (pos 0)) [
      | inl e ↦ inl (rw e)
      | inr (j, h, e) ↦
          inr (j, omega arith, rw (← e) (rounded_up _ (le-longest (count sl) 0 (pos 0))))
    ],
  )
