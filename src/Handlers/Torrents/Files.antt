-- ===== src/Handlers/Torrents/Files.antt =====
-- The lists of a torrent's files.
use text.Mathlib.Text.{◌==◌}
use mathlib.Core.Path.{subst}
use torrent_go.Prelude.{
  ℕ, zero, suc, ◌+◌, ◌≡◌, refl, sym, ap, ◌∙◌, ◌↔◌, inl, inr, Bool, true, Bool-cases, some, List, [],
  ◌∷◌, get_elem?, arith,
}
use torrent_go.Prelude.Sort.{Elem}
use torrent_go.Handlers.Torrents.{
  TorrentFilesRequest, File, FileItem, Kind, video, audio, subtitle, kind_of, item, same_kind,
  items_of, path_lt, insert_item, sort_by_path, FilesResponse, files_response, text_of,
}

Elem-insert_item :
    (x y : FileItem) (ys : List FileItem) → Elem x (y ∷ ys) → Elem x (insert_item y ys)
unfolding insert_item
Elem-insert_item x y [] i = i
Elem-insert_item x y (z ∷ zs) i = elim (Bool-cases (path_lt z y)) [
  | inr h ↦ rw h i
  | inl h ↦ rw h (elim i [
    | inl e ↦ inr (Elem-insert_item x y zs (inl e))
    | inr (inl e) ↦ inl e
    | inr (inr j) ↦ inr (Elem-insert_item x y zs (inr j))
  ])
]

Elem-sort : (x : FileItem) (ys : List FileItem) → Elem x ys → Elem x (sort_by_path ys)
unfolding sort_by_path
Elem-sort x [] i = i
Elem-sort x (y ∷ ys) (inl e) = Elem-insert_item x y (sort_by_path ys) (inl e)
Elem-sort x (y ∷ ys) (inr i) = Elem-insert_item x y (sort_by_path ys) (inr (Elem-sort x ys i))

insert_item-Elem :
    (x y : FileItem) (ys : List FileItem) → Elem x (insert_item y ys) → Elem x (y ∷ ys)
unfolding insert_item
insert_item-Elem x y [] i = i
insert_item-Elem x y (z ∷ zs) i = elim (Bool-cases (path_lt z y)) [
  | inr h ↦ rw h at i
  | inl h ↦ elim (rw h at i) [
    | inl e ↦ inr (inl e)
    | inr j ↦ elim (insert_item-Elem x y zs j) [ inl e ↦ inl e | inr k ↦ inr (inr k) ]
  ]
]

sort-Elem : (x : FileItem) (ys : List FileItem) → Elem x (sort_by_path ys) → Elem x ys
unfolding sort_by_path
sort-Elem x [] i = i
sort-Elem x (y ∷ ys) i = elim (insert_item-Elem x y (sort_by_path ys) i) [
  | inl e ↦ inl e
  | inr j ↦ inr (sort-Elem x ys j)
]

-- A file of the torrent, by its number.
abbrev pub IsFile : List File → Kind → Bool → ℕ → FileItem → Type 0
IsFile fs k serial base x =
    (i : ℕ) × (f : File) × (get_elem? fs i ≡ some f)
    × (same_kind (kind_of f.extension) k ≡ true)
    × (x ≡ item serial (base + i) f)

Elem-items_of :
    (k : Kind) (serial : Bool) (base : ℕ) (fs : List File) (i : ℕ) {f : File}
    → get_elem? fs i ≡ some f
    → same_kind (kind_of f.extension) k ≡ true
    → Elem (item serial (base + i) f) (items_of k serial base fs)
unfolding items_of
Elem-items_of k serial base [] i e h = cc
Elem-items_of k serial base (g ∷ fs) zero {f} e h =
    let same : g ≡ f = cc in
    let own : same_kind (kind_of g.extension) k ≡ true =
      ap (λ (x : File). same_kind (kind_of x.extension) k) same ∙ h in
    let n : base + 0 ≡ base = omega arith in rw own (inl (rw n (ap (item serial base) (sym same))))
Elem-items_of k serial base (g ∷ fs) (suc i) {f} e h =
    let n : suc base + i ≡ base + suc i = omega arith in
    let rest : Elem (item serial (base + suc i) f) (items_of k serial (suc base) fs) =
      rw n at (Elem-items_of k serial (suc base) fs i e h) in
    elim (Bool-cases (same_kind (kind_of g.extension) k)) [
      | inl q ↦ rw q (inr rest)
      | inr q ↦ rw q rest
    ]

abbrev pub list_of : Kind → FilesResponse → List FileItem
list_of video r = r.items
list_of audio r = r.audio_files
list_of subtitle r = r.subtitle_files

IsFile-later :
    (fs : List File) (g : File) (k : Kind) (serial : Bool) (base : ℕ) {x : FileItem}
    → IsFile fs k serial (suc base) x
    → IsFile (g ∷ fs) k serial base x
IsFile-later fs g k serial base (i, f, e, h, q) = (
  suc i,
  f,
  e,
  h,
  let n : suc base + i ≡ base + suc i = omega arith in q ∙ ap (λ m. item serial m f) n,
)

IsFile-first :
    (fs : List File) (g : File) (k : Kind) (serial : Bool) (base : ℕ) {x : FileItem}
    → same_kind (kind_of g.extension) k ≡ true
    → x ≡ item serial base g
    → IsFile (g ∷ fs) k serial base x
IsFile-first fs g k serial base h q =
    (0, g, refl, h, let n : base ≡ base + 0 = omega arith in q ∙ ap (λ m. item serial m g) n)

items_of-Elem :
    (k : Kind) (serial : Bool) (base : ℕ) (fs : List File) {x : FileItem}
    → Elem x (items_of k serial base fs)
    → IsFile fs k serial base x
unfolding items_of
items_of-Elem k serial base [] i = absurd i
items_of-Elem k serial base (g ∷ fs) i = elim (Bool-cases (same_kind (kind_of g.extension) k)) [
  | inr h ↦ IsFile-later fs g k serial base (items_of-Elem k serial (suc base) fs (rw h at i))
  | inl h ↦ elim (rw h at i) [
    | inl e ↦ IsFile-first fs g k serial base h e
    | inr j ↦ IsFile-later fs g k serial base (items_of-Elem k serial (suc base) fs j)
  ]
]

listed :
    (k : Kind) (r : TorrentFilesRequest) (files : List File)
    → list_of k (files_response r files)
      ≡ sort_by_path (items_of k (text_of r.media_type == "tv") 0 files)
unfolding files_response
listed video r files = refl
listed audio r files = refl
listed subtitle r files = refl

-- The list of a kind holds exactly the items of the torrent's files of that kind, each with the number
-- that the file has in the torrent, counted from 1.
pub files_listed :
    (k : Kind) (r : TorrentFilesRequest) (files : List File) (x : FileItem)
    → Elem x (list_of k (files_response r files))
      ↔ IsFile files k (text_of r.media_type == "tv") 0 x
files_listed k r files x =
    let serial = text_of r.media_type == "tv" in
    (
      λ i. items_of-Elem k serial 0 files (sort-Elem x _ (subst (Elem x) (listed k r files) i)),
      λ (i, f, e, h, q). subst (Elem x) (sym (listed k r files)) (
          Elem-sort x _ (
            subst (λ y. Elem y (items_of k serial 0 files)) (sym q)
              (Elem-items_of k serial 0 files i e h))),
    )
