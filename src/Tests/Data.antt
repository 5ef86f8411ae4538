-- ===== src/Tests/Data.antt =====
-- The states that the tests start from.
use torrent_go.Prelude.{ℕ, true, false, none, some, [], ◌∷◌, ◌≡◌, refl, arith}
use torrent_go.Prelude.Int.{pos}
use torrent_go.Prelude.Assoc.{lookup, insert-all}
use torrent_go.Storage.ReadClass.{playback, ahead_demux}
use torrent_go.Storage.MemPiece.{MemPiece}
use torrent_go.Storage.Window.{Reader, Geometry}
use torrent_go.Storage.Cache.{Cache}
use torrent_go.Storage.Cache.Accounting.{IsBalanced}
use torrent_go.Storage.Store.{Store, min_global_capacity}
use torrent_go.Storage.Store.Balance.{IsExact, Good}

-- A complete piece of one byte that accounts for 60 MB.
abbrev pub whole : ℕ → ℕ → MemPiece
whole id accessed = record {
  id = id;
  size = 1;
  bytes = some (7 ∷ []);
  written_blocks = true ∷ [];
  complete = true;
  accessed = accessed;
  accounted = 60000000;
  done = true;
  notify = 1;
}

abbrev pub geometry : Geometry
geometry = record { piece_len = 1; piece_count = 40 }

-- A player at piece 10 of a file of 40 pieces.
abbrev pub player : Reader
player = record {
  id = 1;
  file_offset = 0;
  file_size = 40;
  pos = 10;
  closed = false;
  last_piece_idx = none;
  class = playback;
  wait_deadline = none;
}

abbrev pub demuxer : Reader
demuxer = record player { id = 2; pos = 11; class = ahead_demux }

-- Two complete pieces, the second used later, and no reader.
abbrev pub full : Cache
full = record {
  pieces = (5, whole 0 3) ∷ (6, whole 1 8) ∷ [];
  readers = [];
  capacity = min_global_capacity;
  filled = pos 120000000;
  geometry = geometry;
  total_size = 40;
  has_torrent = true;
  closed = false;
  has_store = true;
  disk = none;
  next_id = 2;
}

-- The same with a reader that protects the head of its file, which holds piece 0 instead of 5.
abbrev pub watched : Cache
watched = record full {
  pieces = (0, whole 0 3) ∷ (38, whole 1 8) ∷ [];
  readers = (record player { closed = true }) ∷ [];
}

abbrev pub store_of : Cache → Store
store_of c = record {
  caches = (9, c) ∷ [];
  global_filled = c.filled;
  global_capacity = min_global_capacity;
  download_dir = true;
  disk_modes = [];
}

pub full-IsBalanced : IsBalanced full
full-IsBalanced = record { balance = refl; distinct = ground arith; empty_closed = λ h. cc }

pub watched-IsBalanced : IsBalanced watched
watched-IsBalanced = record { balance = refl; distinct = ground arith; empty_closed = λ h. cc }

Good-of : (c : Cache) → Good c → (h : ℕ) (d : Cache) → lookup h ((9, c) ∷ []) ≡ some d → Good d
Good-of c g = insert-all Good 9 c [] g (λ j w e. absurd (cc))

pub full-IsExact : IsExact (store_of full)
full-IsExact = record {
  exact = refl;
  caches_good = Good-of full (full-IsBalanced, refl);
  distinct = ground arith;
}

pub watched-IsExact : IsExact (store_of watched)
watched-IsExact = record {
  exact = refl;
  caches_good = Good-of watched (watched-IsBalanced, refl);
  distinct = ground arith;
}
