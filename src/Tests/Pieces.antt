-- ===== src/Tests/Pieces.antt =====
-- Pieces in memory and on disk.
use torrent_go.Prelude.{
  ℕ, ◌+◌, ◌≤◌, ◌<◌, ◌≢◌, true, false, none, some, List, [], ◌∷◌, ◌≡◌, refl, arith, inr, length,
  take, drop,
}
use torrent_go.Storage.MemPiece
use torrent_go.Storage.MemPiece.{
  MemPiece, IoErr, new_mem_piece, write_at, read_at, mark_complete, has_range, wait_range,
}
use torrent_go.Storage.MemPiece.Wakeup.{Runs, Op, apply, no_lost_wakeup}
use torrent_go.Storage.MemPiece.Chunk.{IsChunk, Downloads}
use torrent_go.Storage.MemPiece.Content.{read_at-ready}
use torrent_go.Storage.Disk.{DiskBacking, new_disk_backing, write_piece, read_piece}
use torrent_go.Storage.Disk.Pieces.{IsSound, persist_survives}
use torrent_go.Storage.Cache.{Cache, get_or_create}
use torrent_go.Storage.Cache.Accounting.{held}
use torrent_go.Storage.Piece.{write, complete}
use torrent_go.Storage.Piece.Parts.{Adds}
use torrent_go.Storage.Piece.Balance.{write-Adds, write_short-drift, complete-Adds}
use torrent_go.Tests.Data.{full, full-IsBalanced}

abbrev content : List ℕ
content = 5 ∷ 6 ∷ 7 ∷ []

-- A piece of three bytes, written in one chunk.
abbrev written : MemPiece
written = (write_at (new_mem_piece 0 1 (length content)) 2 (take 3 (drop 0 content)) 0).0

content-IsChunk : IsChunk (length content) 0 3
content-IsChunk = record {
  aligned = refl;
  some_bytes = omega arith;
  inside = omega arith;
  ends = inr refl;
}

program : Unit {0}
unfolding new_mem_piece write_at MemPiece.mark_blocks MemPiece.all_written has_range read_at
    wait_range
program = tt

read_at-ready_example :
    ((read_at written 3 2 1).1 ≡ take 2 (drop 1 content)) × ((read_at written 3 2 1).2 ≡ none)
read_at-ready_example =
    read_at-ready content 3 1 2 (Downloads.write 2 0 3 (Downloads.fresh 0 1) content-IsChunk)
      (omega arith) (omega arith) (unfold program in refl)

no_lost_wakeup_example : 0 < (apply (Op.write 2 (5 ∷ 6 ∷ 7 ∷ []) 0) (new_mem_piece 0 1 3)).notify
unfolding program apply
no_lost_wakeup_example =
    no_lost_wakeup {m = new_mem_piece 0 1 3} 0 2 0 refl
      (Runs.next Runs.here (Op.write 2 (5 ∷ 6 ∷ 7 ∷ []) 0) (omega arith)) refl

-- Two pieces of two bytes, of which none is on disk.
abbrev empty_disk : DiskBacking
empty_disk = record {
  file = 0 ∷ 0 ∷ 0 ∷ 0 ∷ [];
  bitmap = none;
  piece_len = 2;
  piece_count = 2;
  have = false ∷ false ∷ [];
}

empty_disk-IsSound : IsSound 4 empty_disk
empty_disk-IsSound = record { file_length = refl; have_length = refl }

persist_survives_example :
    let d₁ = (write_piece true true empty_disk 1 (8 ∷ 9 ∷ [])).0 in
    (d₂ : DiskBacking) × (new_disk_backing true d₁.file d₁.bitmap d₁.piece_len 4 d₁.piece_count
      ≡ some d₂)
    × (read_piece true d₂ 1 2 ≡ (8 ∷ 9 ∷ [], none))
    × ((j size : ℕ)
        → 1 ≢ j
        → size ≤ 2
        → read_piece true d₂ j size ≡ read_piece true empty_disk j size)
persist_survives_example =
    persist_survives 4 empty_disk 1 (8 ∷ 9 ∷ []) empty_disk-IsSound (omega arith) (omega arith)
      (omega arith)

write-Adds_example : Adds full (write full 9 7 3 content 0).cache (write full 9 7 3 content 0).added
unfolding write get_or_create program
write-Adds_example = write-Adds full 9 7 3 content 0 full-IsBalanced refl

-- Two of three bytes fit the piece.
write_short-drift_example :
    let r = write full 9 7 2 content 0 in
    (held r.cache ≡ held full + r.n) × (r.cache.filled ≡ full.filled) × (r.added ≡ 0)
unfolding write get_or_create program
write_short-drift_example =
    write_short-drift full 9 7 2 content 0 {x = IoErr.short_write} full-IsBalanced refl refl

complete-Adds_example : Adds full (complete true true full 9 7 3) 0
complete-Adds_example = complete-Adds true true full 9 7 3 full-IsBalanced

abbrev on_disk_too : Cache
on_disk_too = record full {
  disk = some (record empty_disk {
    piece_count = 8;
    have = false ∷ false ∷ false ∷ false ∷ false ∷ false ∷ false ∷ false ∷ [];
  });
}
