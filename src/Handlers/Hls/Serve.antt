-- ===== src/Handlers/Hls/Serve.antt =====
-- handlers/hls.go `serveProduced`: bytes from the segment cache, or produced and then kept there.
--
-- The call that produces the bytes is an argument, with `none` for an error.
pub mod Transparent
use Prim.Native.String.{String}
use torrent_go.Handlers.SegCache.{SegCache, get, put}
use torrent_go.Prelude.{ℕ, Bool, true, false, if◌then◌else◌, Option, none, some, List}

-- What is written to the client. `nothing`: it has gone.
pub data Served : Type 0 where
  body : (content_type : String) → List ℕ → Served
  segment_failed : Served
  nothing : Served

abbrev pub keep : SegCache → String → String → Bool → Option (List ℕ) → SegCache × Served
keep c key content_type is_gone none = (c, if is_gone then nothing else segment_failed)
keep c key content_type is_gone (some data') = (put c key data', body content_type data')

abbrev pub or_produced :
    SegCache × Option (List ℕ) → String → String → Bool → Option (List ℕ) → SegCache × Served
or_produced (c, some data') key content_type is_gone produce = (c, body content_type data')
or_produced (c, none) key content_type is_gone produce = keep c key content_type is_gone produce

unfoldable pub serve_produced :
    SegCache → String → String → Bool → Option (List ℕ) → SegCache × Served
serve_produced c key content_type is_gone produce =
    or_produced (get c key) key content_type is_gone produce
