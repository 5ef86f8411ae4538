-- ===== src/Handlers/Hls/Labels.antt =====
-- handlers/external.go `parseIndexList`, `externalTrackLabel` and `cleanExternalLabel`: which other
-- files of a torrent a player asks for, and what their tracks are called.
pub mod Indices
use torrent_go.Handlers.Hls.Names.{or_else}
use torrent_go.Prelude.{
  ℕ, zero, suc, ◌+◌, ◌-◌, Bool, true, false, not, ◌&&◌, ◌||◌, leb, ◌==◌, if◌then◌else◌, Option,
  none, some, List, [], ◌∷◌, ◌++◌, length, get_or,
}
use torrent_go.Prelude.Bytes.{
  Bytes, codes, same_text, split, is_space, trim_left, trim_right, trim_space, trim_suffix,
}
use torrent_go.Prelude.Decimal.{itoa, atoi}
use torrent_go.Prelude.Int.{ℤ, pos, negsuc, pos_part, ltb_ℤ, same_number}

unfoldable pub is_seen : ℤ → List ℤ → Bool
is_seen n [] = false
is_seen n (m ∷ seen) = same_number n m || is_seen n seen

-- The loop of `parseIndexList`, with the numbers that were seen.
abbrev pub take_index : (List ℤ → List ℤ) → Option ℤ → List ℤ → List ℤ
take_index rest none seen = rest seen
take_index rest (some n) seen =
    let skipped = rest seen in
    let taken = n ∷ rest (n ∷ seen) in if ltb_ℤ n (pos 1) || is_seen n seen then skipped else taken

unfoldable pub indices_of : List Bytes → List ℤ → List ℤ
indices_of [] seen = []
indices_of (part ∷ parts) seen = take_index (λ s. indices_of parts s) (atoi (trim_space part)) seen

unfoldable pub parse_index_list : Bytes → List ℤ
unfolding indices_of
parse_index_list [] = []
parse_index_list (c ∷ s) = indices_of (split b',' (c ∷ s)) []

unfoldable pub has_char : ℕ → Bytes → Bool
has_char b [] = false
has_char b (c ∷ s) = c == b || has_char b s

-- `path.Ext`: from the last dot on, if no slash is behind it.
unfoldable pub path_ext : Bytes → Bytes
unfolding has_char
path_ext [] = []
path_ext (c ∷ s) = or_else (path_ext s) (if c == b'.' && not (has_char b'/' s) then c ∷ s else [])

unfoldable pub in_cutset : ℕ → Bool
in_cutset c =
    c == b'['
    || c == b']'
    || c == b'('
    || c == b')'
    || c == b'{'
    || c == b'}'
    || c == b'.'
    || c == b'_'
    || c == b'-'

abbrev pub flush : Bytes → List Bytes → List Bytes
flush [] words = words
flush (c ∷ word) words = (c ∷ word) ∷ words

-- `strings.Fields`; the first argument is the word that has begun.
unfoldable pub fields_from : Bytes → Bytes → List Bytes
fields_from word [] = flush word []
fields_from word (c ∷ s) =
    let ends = flush word (fields_from [] s) in
    let goes_on = fields_from (word ++ (c ∷ [])) s in if is_space c then ends else goes_on

-- `strings.Join` with a space.
unfoldable pub join_words : List Bytes → Bytes
join_words [] = []
join_words (w ∷ []) = w
join_words (w ∷ v ∷ ws) = w ++ (codes " " ++ join_words (v ∷ ws))

unfoldable pub clean_external_label : Bytes → Bytes
unfolding in_cutset fields_from join_words
clean_external_label s =
    let inner = trim_right in_cutset (trim_left in_cutset (trim_space s)) in
    or_else (join_words (fields_from [] inner)) (codes "Audio")

abbrev pub label_of_parts : List Bytes → Bytes
label_of_parts parts =
    let n = length parts in
    let base = get_or parts (n - 1) [] in
    let parent = trim_space (get_or parts (n - 2) []) in
    if leb 2 n
      && not (same_text parent [])
      && not (same_text parent (trim_space (get_or parts 0 [])))
    then clean_external_label parent
    else clean_external_label (trim_suffix base (path_ext base))

unfoldable pub external_track_label : List Bytes → ℤ → Bytes
unfolding path_ext
external_track_label paths idx =
    if ltb_ℤ idx (pos 1) || ltb_ℤ (pos (length paths)) idx
    then codes "Track " ++ itoa idx
    else label_of_parts (split b'/' (get_or paths (pos_part idx - 1) []))
