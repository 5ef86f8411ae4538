-- ===== src/Tests/Readers.antt =====
-- Reads and seeks.
use mathlib.Core.Path.{subst}
use torrent_go.Prelude.{
  ℕ, zero, suc, ◌<◌, ◌≡◌, refl, inl, inr, true, false, none, some, List, [], ◌∷◌, arith, drop, take,
}
use torrent_go.Prelude.Int.{pos, negsuc, ◌+ℤ◌, int_laws}
use torrent_go.Prelude.Assoc.{lookup, insert-all}
use torrent_go.Storage.ReadClass.{now}
use torrent_go.Storage.MemPiece.{MemPiece, new_mem_piece, load_complete, is_complete}
use torrent_go.Storage.MemPiece.Chunk.{Downloads}
use torrent_go.Storage.Window.{Reader, Geometry, curr_piece}
use torrent_go.Storage.Cache.{Cache}
use torrent_go.Storage.Reader.{World, Wait, Round, timer, read, returned, seek}
use torrent_go.Storage.Reader.Slices.{piece_bytes, IsLaidOut}
use torrent_go.Storage.Disk.{DiskBacking, has}
use torrent_go.Storage.Store.{Store}
use torrent_go.Storage.Store.Balance.{Good}
use torrent_go.Storage.Store.PieceRead.{read_piece_at}
use torrent_go.Storage.Store.ReadBack.{evicted_read_back}
use torrent_go.Storage.Reader.Shared.{DiskSound}
use torrent_go.Storage.Reader.Worlds.{SoundWorld, RoundsKeep}
use torrent_go.Storage.Reader.Bytes.{IsPart, read-IsPart}
use torrent_go.Storage.Reader.Steady.{Steady, AllQuiet}
use torrent_go.Storage.Reader.Resident.{resident_read}
use torrent_go.Storage.Reader.Seek.{base, seek_gets_now}
use torrent_go.Tests.Data.{player, full, store_of}

-- A torrent of three bytes, in two pieces.
abbrev file : List ℕ
file = 7 ∷ 8 ∷ 9 ∷ []

abbrev file_start : List ℕ
file_start = 7 ∷ 8 ∷ []

abbrev file_end : List ℕ
file_end = 9 ∷ []

abbrev pieces_of_two : Geometry
pieces_of_two = record { piece_len = 2; piece_count = 2 }

abbrev first : MemPiece
first = (load_complete (new_mem_piece 0 0 2) 1 file_start).0

abbrev second : MemPiece
second = (load_complete (new_mem_piece 1 0 1) 1 file_end).0

-- A player at the second byte.
abbrev viewer : Reader
viewer = record player { file_size = 3; pos = 1 }

abbrev loaded : Cache
loaded = record full {
  pieces = (0, first) ∷ (1, second) ∷ [];
  readers = viewer ∷ [];
  geometry = pieces_of_two;
}

abbrev world : World
world = record { cache = loaded; reader = viewer }

abbrev look : Wait
look = record { before = λ w. w; during = λ w. w; now = 5; woken = timer }

abbrev round : Round
round = record {
  before = λ w. w;
  now = 5;
  read_now = 6;
  ok = true;
  waits = look ∷ [];
  evicted = false;
}

abbrev rounds : List Round
rounds = round ∷ round ∷ round ∷ []

laid_out : IsLaidOut pieces_of_two file
laid_out = record { positive = omega arith; covered = omega arith; needed = omega arith }

genuine :
    (i : ℕ) (mp : MemPiece)
    → lookup i loaded.pieces ≡ some mp
    → Downloads (piece_bytes pieces_of_two file i) mp
genuine zero mp e =
    let same : first ≡ mp = cc e in
    subst (Downloads file_start) same (Downloads.load 1 (Downloads.fresh 0 0))
genuine (suc zero) mp e =
    let same : second ≡ mp = cc e in
    subst (Downloads file_end) same (Downloads.load 1 (Downloads.fresh 1 0))
genuine (suc (suc n)) mp e = absurd (ground arith)

world-SoundWorld : SoundWorld pieces_of_two file 0 world
world-SoundWorld = record {
  sound = record { shape = refl; genuine = genuine; on_disk = tt };
  offset = refl;
}

resident :
    (i : ℕ) → i < 2 → (mp : MemPiece) × (lookup i loaded.pieces ≡ some mp) × (is_complete mp ≡ true)
unfolding is_complete load_complete new_mem_piece
resident zero h = (first, refl, refl)
resident (suc zero) h = (second, refl, refl)
resident (suc (suc n)) h = absurd (omega arith)

world-Steady : Steady pieces_of_two file 0 world
world-Steady = record {
  sound_world = world-SoundWorld;
  reader_open = refl;
  cache_open = refl;
  resident = resident;
}

rounds-Kept : RoundsKeep pieces_of_two file 0 rounds
rounds-Kept = (
  (λ w h. h, ((λ w h. h, λ w h. h), tt)),
  ((λ w h. h, ((λ w h. h, λ w h. h), tt)), ((λ w h. h, ((λ w h. h, λ w h. h), tt)), tt)),
)

rounds-Quiet : AllQuiet pieces_of_two file 0 rounds
rounds-Quiet = (
  (λ w h. h, (λ w h. h, refl)),
  ((λ w h. h, (λ w h. h, refl)), ((λ w h. h, (λ w h. h, refl)), tt)),
)

read-IsPart_example : IsPart pieces_of_two file 0 1 2 (read rounds 3 5 world)
read-IsPart_example =
    read-IsPart pieces_of_two file 0 rounds 5 world laid_out rounds-Kept world-SoundWorld
      (omega arith)

resident_read_example :
    ((read rounds 3 5 world).status ≡ returned none)
    × ((read rounds 3 5 world).content ≡ take 2 (drop 1 file))
resident_read_example =
    resident_read pieces_of_two file 0 rounds 5 world laid_out rounds-Kept rounds-Quiet world-Steady
      (omega arith) (omega arith) (omega arith)

-- From the end, one byte back.
seek_gets_now_example :
    let s = seek world (negsuc 0) 2 in
    (pos s.world.reader.pos ≡ base viewer 2 +ℤ negsuc 0)
    × (lookup (curr_piece pieces_of_two s.world.reader) s.calls ≡ some now)
seek_gets_now_example =
    seek_gets_now world (negsuc 0) 2 (inl refl) refl refl (omega arith) (unfold seek ◌+ℤ◌ in refl)
      (unfold seek ◌+ℤ◌ in omega arith) (unfold seek ◌+ℤ◌ in omega arith)

-- Nothing in memory, and both pieces on disk.
abbrev on_disk : DiskBacking
on_disk = record {
  file = file;
  bitmap = none;
  piece_len = 2;
  piece_count = 2;
  have = true ∷ true ∷ [];
}

abbrev persisted : Cache
persisted = record loaded { pieces = []; filled = pos 0; disk = some on_disk }

persisted-DiskSound : DiskSound pieces_of_two file (some on_disk)
unfolding has
persisted-DiskSound zero h = refl
persisted-DiskSound (suc zero) h = refl
persisted-DiskSound (suc (suc n)) h = absurd (ground arith)

abbrev hash : ℕ
hash = 9

abbrev store : Store
store = store_of persisted

persisted-Good : (h : ℕ) (d : Cache) → lookup h store.caches ≡ some d → Good d
persisted-Good =
    insert-all Good hash persisted []
      (record { balance = refl; distinct = tt; empty_closed = λ h. cc }, refl)
      (λ j w e. absurd (cc))

evicted_read_back_example :
    ((read_piece_at true store hash 9 0 2 1 1).content ≡ take 1 (drop 1 file_start))
    × ((read_piece_at true store hash 9 0 2 1 1).err ≡ none)
evicted_read_back_example =
    evicted_read_back pieces_of_two file store persisted hash 9 0 2 1 1 {d = on_disk}
      (record { exact = refl; caches_good = persisted-Good; distinct = ground arith }) refl
      (record { shape = refl; genuine = λ i mp e. absurd (cc e); on_disk = persisted-DiskSound })
      refl refl refl refl (unfold has in refl) (inr (omega int_laws)) (omega arith) (omega arith)
