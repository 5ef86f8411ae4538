-- ===== src/Storage/Disk.antt =====
-- storage/disk.go: the pieces of a disk-mode torrent in one data file, with a bitmap beside it.
--
-- The file system belongs to the environment: a call takes whether the system call succeeds (`ok`),
-- and a failed one leaves the file as it was. `file` is the content of `<hash>.dat`, `bitmap` that
-- of `<hash>.bitmap` (`none` if there is no such file).
pub mod Bitmap
pub mod Pieces
use Prim.Native.Nat.{bit_and, bit_or}
use torrent_go.Prelude.{
  ℕ, zero, suc, ◌+◌, ◌-◌, ◌*◌, ◌/◌, ◌%◌, ◌^◌, Bool, true, false, not, ◌&&◌, ltb, leb, ◌==◌,
  if◌then◌else◌, Option, none, some, List, [], ◌∷◌, ◌++◌, length, get_or, set, take, drop,
  replicate,
}

pub record DiskBacking : Type 0 where
  pub file : List ℕ
  pub bitmap : Option (List ℕ)
  pub piece_len : ℕ
  pub piece_count : ℕ
  pub have : List Bool

pub data DiskError : Type 0 where
  not_on_disk io_failed : DiskError

-- `packed[i/8] |= 1 << (i % 8)`
abbrev pub set_bit : ℕ → List ℕ → List ℕ
set_bit i packed = set packed (i / 8) (bit_or (get_or packed (i / 8) 0) (2 ^ (i % 8)))

abbrev pub test_bit : ℕ → List ℕ → Bool
test_bit i packed = not (bit_and (get_or packed (i / 8) 0) (2 ^ (i % 8)) == 0)

-- The loop of `saveBitmapLocked` over `have`, from index `i` on.
unfoldable pub pack_from : ℕ → List Bool → List ℕ → List ℕ
pack_from i [] packed = packed
pack_from i (h ∷ hs) packed = pack_from (i + 1) hs (if h then set_bit i packed else packed)

unfoldable pub pack : DiskBacking → List ℕ
pack d = pack_from 0 d.have (replicate ((d.piece_count + 7) / 8) 0)

-- The file is replaced by a rename, so a failed write keeps the old one.
unfoldable pub save_bitmap : Bool → DiskBacking → DiskBacking
save_bitmap ok d = if ok then record d { bitmap = some (pack d) } else d

-- The loop of `loadBitmap` over `n` pieces from `i` on; it stops at the end of the file.
unfoldable pub unpack_from : ℕ → ℕ → List ℕ → List Bool → List Bool
unpack_from zero i packed have = have
unpack_from (suc n) i packed have =
    let rest = unpack_from n (i + 1) packed (if test_bit i packed then set have i true else have) in
    if ltb (i / 8) (length packed) then rest else have

abbrev load_from : Option (List ℕ) → DiskBacking → DiskBacking
load_from none d = d
load_from (some packed) d = record d { have = unpack_from d.piece_count 0 packed d.have }

unfoldable pub load_bitmap : DiskBacking → DiskBacking
load_bitmap d = load_from d.bitmap d

-- `f.Truncate(totalSize)` of the data file that is there, if any.
abbrev truncate : ℕ → List ℕ → List ℕ
truncate n f = take n f ++ replicate (n - length f) 0

unfoldable pub new_disk_backing : Bool → List ℕ → Option (List ℕ) → ℕ → ℕ → ℕ → Option DiskBacking
new_disk_backing ok file bitmap piece_len total_size piece_count =
    if ok
    then some (
        load_bitmap (record {
          file = truncate total_size file;
          bitmap = bitmap;
          piece_len = piece_len;
          piece_count = piece_count;
          have = replicate piece_count false;
        }))
    else none

unfoldable pub count_true : List Bool → ℕ
count_true [] = 0
count_true (h ∷ hs) = if h then suc (count_true hs) else count_true hs

unfoldable pub have_count : DiskBacking → ℕ
have_count d = count_true d.have

-- Piece indices are not negative.
unfoldable pub has : DiskBacking → ℕ → Bool
has d idx = ltb idx (length d.have) && get_or d.have idx false

-- `WriteAt`, which extends the file with zeros where it has to.
abbrev pub write_file : List ℕ → ℕ → List ℕ → List ℕ
write_file f off p = take off (f ++ replicate (off - length f) 0) ++ (p ++ drop (off + length p) f)

-- `ok_data` and `ok_map`: whether the data file and the bitmap can be written.
unfoldable pub write_piece : Bool → Bool → DiskBacking → ℕ → List ℕ → DiskBacking × Option DiskError
write_piece ok_data ok_map d idx p = if not ok_data then (d, some io_failed) else (
  save_bitmap ok_map (record d {
    file = write_file d.file (idx * d.piece_len) p;
    have = if ltb idx (length d.have) then set d.have idx true else d.have;
  }),
  none,
)

-- Reads `size` bytes. A read that passes the end of the file is short, with an error.
unfoldable pub read_piece : Bool → DiskBacking → ℕ → ℕ → List ℕ × Option DiskError
read_piece ok d idx size =
    let got = take size (drop (idx * d.piece_len) d.file) in
    if not (has d idx)
    then ([], some not_on_disk)
    else (if not ok
        then ([], some io_failed)
        else (got, if ltb (length got) size then some io_failed else none))

unfoldable pub clear : Bool → DiskBacking → ℕ → DiskBacking
clear ok_map d idx =
    if has d idx then save_bitmap ok_map (record d { have = set d.have idx false }) else d
