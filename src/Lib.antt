-- ===== src/Lib.antt =====
-- A model of torrent-go, a streaming server over a BitTorrent client.
--
-- The server keeps the pieces of its torrents in a RAM cache (storage/). The torrent client writes
-- blocks into pieces, marks pieces complete, and is told by priorities what to fetch next; readers
-- (players, demuxers, probes) wait for byte ranges and read them. One global account of resident
-- bytes drives the eviction of pieces across torrents; pieces that a reader is about to read are
-- protected. In disk mode a verified piece is also written to a file and reloaded from it.
--
-- A video is served as HLS segments by a rendition (media/rendition/). A manager picks a pipeline
-- among the providers' devices, under a limit for each device and for the CPU, and holds a token of
-- that limit until the rendition is released.
--
-- Files:
--   Prelude            shared names, Boolean tests, lists, maps, sorting, signed integers; Bytes and
--                      Decimal have texts as lists of bytes and decimal numerals.
--   Storage/ReadClass  storage/readclass.go: ReadClass, classPolicy, aheadPiecesFor.
--   Storage/MemPiece   storage/mempiece.go: one piece's buffer. Wakeup, Chunk and Content prove it.
--   Storage/Disk       storage/disk.go: data file and bitmap. Bitmap and Pieces prove it.
--   Storage/Window     storage/reader.go GetActiveWindow, storage/cache.go getReaderWindows.
--   Storage/Priority   storage/cache.go UpdatePriorities.
--   Storage/Cache      storage/cache.go: the cache of one torrent, its account and its eviction.
--   Storage/Piece      storage/piece.go and the disk-mode methods of storage/cache.go. Parts,
--                      Balance and Disk prove it.
--   Storage/Reader     storage/reader.go: Read, Seek and Close. Slices, Shared, Worlds,
--                      Ranges and Steady are lemmas; Bytes, Resident and Seek prove it.
--   Storage/Preload    storage/preload.go, and WaitForPieces of storage/cache.go. Asked proves it.
--   Storage/Store      storage/storage.go: all caches, the global account and global eviction.
--                      PieceRead has storage/piece.go ReadAt, with the eviction that a reload sets
--                      off; Reloaded and ReadBack prove it.
--   Rendition/Errors, Lifecycle, Identity, Contract, Candidates: media/rendition/errors.go,
--                      lifecycle.go, types.go and the parts of manager.go that they name.
--                      Candidates/Tiers proves the order of the candidates.
--   Rendition/Manager  media/rendition/manager.go Acquire and Release, admission.go.
--                      Conserve, Outcome, Limits and Contention prove it.
--   Rendition/Session  media/rendition/manager.go managedRendition: Init and Segment.
--   Catalog            catalog/catalog.go: what is remembered of each torrent. Restart and Merge
--                      prove it; Interleaved has calls that run at the same time.
--   Handlers/SegCache  handlers/hlscache.go: the cache of HLS segments. Fit and Laws prove it.
--   Handlers/SegGrid   handlers/hlsindex.go: where the segments of a file start and end. Grid and
--                      Abut prove it.
--   Handlers/Playback  handlers/playback.go, and dropTorrent of handlers/torrents.go: sessions and the
--                      reaper. Watched, Admission and Race prove it.
--   Handlers/Torrents  handlers/torrents.go HandleGetFiles: what adding a torrent does. Handler has the
--                      whole handler and HandleDeleteTorrent. Readd, Files and Added prove them.
--   Handlers/Executor  handlers/executor.go: admission of extraction jobs. Slots proves it.
--   Handlers/Hls       handlers/hls.go, and the parts of handlers/external.go, metadata.go and
--                      subtitles.go that it uses: the playlists. Names and Labels have the names of
--                      the tracks, Master the master playlist, Route the routes and cache keys, Serve
--                      the cache in front of production. Their child modules prove them.
--   Handlers/HeaderCache handlers/stream.go CachingReader and preloadHeadersToCache, storage/reader.go
--                      NewReader. Part and Fill prove them.
--   Handlers/Mp4Index  handlers/mp4index.go. Reference proves it.
--   Handlers/MkvIndex  handlers/mkvindex.go. Cues proves it.
--   Handlers/Thumbnails handlers/thumbnails.go ThumbnailCache. Valid, Runs and
--                      Recent prove it.
--   Media/Fragments    media/segment.go fragWriter. Steps and Stamped prove it.
--   Media/Output       media/output.go memWriter. Patched proves it.
--   Media/TranscodeGate media/transcode_gate.go. Slots proves it.
--   Media/Packets      media/segment.go sanitizeCopyDTS. Order proves it.
--   Media/Boxes        media/segment.go firstBoxOffset, with the wrap of int64. Ends proves it.
--   Tests              runs at concrete inputs, and each theorem at an input that meets its conditions.
--
-- Correspondence. A Go struct is a record with the fields in snake case; a method on a pointer is a
-- function that returns the new record. A mutex-protected method is one step. Times are numbers that
-- a call takes. Byte counts and offsets are natural numbers, except `filled` and `globalFilled`,
-- which are integers since the code may take them below zero; none of them, nor a bit rate, comes
-- near 2^63, so int64 overflow is left out, except for box sizes in Media/Boxes and sample times in
-- Handlers/Mp4Index. Maps are association lists, or functions where only membership counts; theorems
-- about a map's traversal hold for every order of it. `sort.Slice` is an insertion sort. Pointers to pieces are compared by a number that each piece gets when it is made.
--
-- A torrent that is being watched has playback sessions, kept alive by the player. A reaper expires
-- sessions and drops torrents that nobody watches, unless the catalog says that they are persistent.
-- Where the reaper gives up its lock other calls may run: what they do is a part of each torrent's turn.
-- The catalog writes its file with no lock held; changes, snapshots and writes are steps of their own.
-- Segment times are whole milliseconds, exact, where the source has floating-point seconds. JSON is a
-- pair of functions that the catalog takes.
--
-- A call of Read takes, for each round of its loops, what other goroutines do to the shared state
-- while the locks are free and how each wait ends; it is unfinished where the rounds that are given
-- end first.
--
-- Loops are recursions on the rounds that are left. The search for a box gets a round for each byte
-- and one more, the eviction of segments one for each segment, the uniform grid one for each six
-- seconds and one more; other loops run over what they are given.
--
-- Renditions: calls of Acquire run one at a time, and a call takes what providers, pipelines, timers
-- and the random source answer. A registry of gates is the number of tokens in use at each key.
--
-- HLS: a text is the list of its bytes. A reply names what is served; a produced segment is named by
-- its cache key and by what production is asked for. Metadata and segment lists are what the handler
-- finds of them. The search for a free track name gets a round for each name in use and one more, and
-- a numeral as many rounds as its number. The container parsers are the lists of the calls that they
-- make, and key frame times are ticks. A muxer is a test that says which packets it accepts.
--
-- Not modelled: what drives libav (media/video.go, audio.go, audiocont.go, most of segment.go), the
-- production of segments from it (handlers/hlsmedia.go, hlsaudiocont.go), the remaining HTTP handlers,
-- bt/, config/, auth/, speed/ and main.go: their control flow is calls of foreign libraries, of the
-- file system and of the network.
--
-- Left out: the torrent client, HTTP, libav, the file system (a call takes whether it succeeds),
-- log lines, and the completion hints that eviction sends to the client. A call of `Piece` is
-- modelled as if no other goroutine came between its parts. In `Read` the eviction after a reload is
-- part of what happens before the reader looks at the piece.
pub mod Prelude
pub mod Storage
pub mod Rendition
pub mod Catalog
pub mod Media
pub mod Handlers
mod Tests
