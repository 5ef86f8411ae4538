-- ===== src/Tests/Headers.antt =====
-- Reads through the header cache, and its prefetch.
use torrent_go.Handlers.HeaderCache.{
  FileHeaders, no_headers, CachingReader, read_caching, Prefetch, preload_headers,
}
use torrent_go.Handlers.HeaderCache.Fill.{AreRight, preload_headers-AreRight}
use torrent_go.Handlers.HeaderCache.Part.{IsNext, read_caching-IsNext}
use torrent_go.Prelude.{ℕ, ◌≡◌, refl, true, false, some, List, [], ◌∷◌, arith}
use torrent_go.Storage.Cache.{Cache}
use torrent_go.Storage.Reader.{World, Wait, Round, timer}
use torrent_go.Storage.Reader.Shared.{Sound}
use torrent_go.Storage.Reader.Slices.{IsLaidOut}
use torrent_go.Storage.Reader.Worlds.{RoundsKeep}
use torrent_go.Storage.Window.{Reader, Geometry}
use torrent_go.Tests.Data.{player, full}

-- A torrent of three bytes in one piece, of which nothing is in memory yet but the headers.
abbrev file : List ℕ
file = 7 ∷ 8 ∷ 9 ∷ []

abbrev one_piece : Geometry
one_piece = record { piece_len = 3; piece_count = 1 }

abbrev viewer : Reader
viewer = record player { file_size = 3; pos = 0 }

abbrev empty : Cache
empty = record full { pieces = []; readers = viewer ∷ []; geometry = one_piece }

abbrev world : World
world = record { cache = empty; reader = viewer }

abbrev look : Wait
look = record { before = λ w. w; during = λ w. w; now = 5; woken = timer }

abbrev rounds : List Round
rounds =
    record { before = λ w. w; now = 5; read_now = 6; ok = true; waits = look ∷ []; evicted = false }
    ∷ []

laid_out : IsLaidOut one_piece file
laid_out = record { positive = omega arith; covered = omega arith; needed = omega arith }

rounds-Kept : RoundsKeep one_piece file 0 rounds
rounds-Kept = ((λ w h. h, ((λ w h. h, λ w h. h), tt)), tt)

empty-Sound : Sound one_piece file empty
empty-Sound = record { shape = refl; genuine = λ i mp e. cc; on_disk = tt }

-- The first byte and the last one are known.
abbrev headers : FileHeaders
headers = record { start_bytes = 7 ∷ []; end_bytes = 9 ∷ []; end_offset = 2 }

abbrev at_last : CachingReader
at_last = record { file_size = 3; pos = 2 }

-- The last byte comes from the headers.
last_byte : (read_caching (some headers) rounds 3 5 at_last world).content ≡ 9 ∷ []
unfolding read_caching
last_byte = refl

read_caching-IsNext_example :
    IsNext one_piece file 0 at_last 1 (read_caching (some headers) rounds 3 5 at_last world)
read_caching-IsNext_example =
    read_caching-IsNext one_piece file 0 (some headers) rounds 5 at_last world
      (record { first = refl; last = refl }) laid_out rounds-Kept
      (record { sound = empty-Sound; offset = refl }) (omega arith) refl

abbrev prefetch : Prefetch
prefetch = record {
  start_id = 3;
  end_id = 4;
  start_rounds = rounds;
  end_rounds = rounds;
  between_start = λ h. h;
  between_end = λ h. h;
}

preload_headers-AreRight_example :
    AreRight one_piece file 0 (preload_headers prefetch 3 0 3 (no_headers, empty))
preload_headers-AreRight_example =
    preload_headers-AreRight one_piece file 0 prefetch 3 no_headers empty laid_out
      (record {
        start_kept = rounds-Kept;
        end_kept = rounds-Kept;
        between_start_kept = λ h a. a;
        between_end_kept = λ h a. a;
      })
      (omega arith) (record { first = refl; last = refl }) empty-Sound
