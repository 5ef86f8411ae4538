-- ===== src/Handlers/Hls/Names.antt =====
-- handlers/hls.go `trackName`, `uniqueTrackName` and `m3uEscape`, with handlers/metadata.go
-- `ClientTrack`. The map of the names in use is a list.
pub mod Free
use torrent_go.Prelude.{
  ℕ, zero, suc, ◌+◌, Bool, true, false, not, ◌||◌, if◌then◌else◌, Option, none, some, List, [], ◌∷◌,
  ◌++◌, length,
}
use torrent_go.Prelude.Bytes.{Bytes, codes, same_text, trim_space, replace_all}
use torrent_go.Prelude.Decimal.{itoa, itoa_ℕ}
use torrent_go.Prelude.Int.{ℤ, pos, ◌+ℤ◌}

pub record ClientTrack : Type 0 where
  pub index : ℤ
  pub track_type : Bytes
  pub codec : Bytes
  pub language : Bytes
  pub title : Bytes
  pub rel_index : ℤ
  pub source_file : ℤ

abbrev pub or_else : Bytes → Bytes → Bytes
or_else [] other = other
or_else (c ∷ s) other = c ∷ s

unfoldable pub track_name : ClientTrack → Bytes → Bytes
track_name t kind =
    or_else (trim_space t.title)
      (or_else (trim_space t.language) (kind ++ (codes " " ++ itoa (t.rel_index +ℤ pos 1))))

unfoldable pub m3u_escape : Bytes → Bytes
m3u_escape s = replace_all b'"' b'\'' s

unfoldable pub is_used : Bytes → List Bytes → Bool
is_used name [] = false
is_used name (x ∷ used) = same_text name x || is_used name used

-- `"%s (%d)"`
unfoldable pub numbered : Bytes → ℕ → Bytes
numbered name i = name ++ (codes " (" ++ (itoa_ℕ i ++ codes ")"))

-- The loop, with the rounds left; `none` means that they ran out.
unfoldable pub first_free : ℕ → Bytes → ℕ → List Bytes → Option Bytes
first_free zero name i used = none
first_free (suc rounds) name i used =
    let next = first_free rounds name (suc i) used in
    if is_used (numbered name i) used then next else some (numbered name i)

-- One round more than there are names in use.
unfoldable pub unique_track_name : Bytes → List Bytes → Option Bytes
unfolding first_free is_used
unique_track_name name used =
    if not (is_used name used) then some name else first_free (suc (length used)) name 2 used
