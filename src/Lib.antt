-- ===== src/Lib.antt =====
-- cliamp, a terminal music player: models of its playlist, its gapless streamer, its listening history,
-- its favorites, its search score, the jobs and events of its remote control, its progressive
-- download, its sample tap and its pinned radio places, and theorems about them.
--
-- The user interface, the remote control and the plugins drive one playlist (playlist/playlist.go): a
-- list of tracks, a play order, a play-next queue and the modes shuffle, repeat and smart shuffle. The
-- player preloads the track that the playlist announces into the gapless streamer (player/gapless.go),
-- and each track that starts is recorded in the history (history/history.go). The favorites
-- (favorites/favorites.go) store tracks in the same way, and internal/fuzzy/fuzzy.go ranks tracks
-- against a query. A remote client starts jobs (ipc/jobs.go) and subscribes to events (ipc/pubsub.go).
-- The player reads a file that is still downloading through player/nav_buffer.go, and its visualizer
-- reads the latest frames through player/tap.go. The places that are pinned (external/radio/pins.go)
-- are stored as text, which internal/tomlutil reads.
--
-- Files:
--   Base: Boolean tests, lists over native numbers, signed integers, Go slices, panics, counts and
--   permutations.
--   Playlist/Track: playlist/track.go and playlist/context.go. Playlist/State to Playlist/Views: the
--   methods of playlist/playlist.go, by what they do: the state and snapshots (State), the random draws
--   and Fisher-Yates loops (Shuffle), the search for playable slots (Slots), `Next`, `PeekNext`,
--   `HasNext`, `Prev` and the selection (Navigation), the play-next queue (Queueing), `Move`, `Remove`
--   and the modes (Editing), smart shuffle (Smart), `Replace`, `Add` and `Restore` (Loading), and
--   the readers (Views). A definition keeps its Go method's name, in antt's spelling.
--   Playlist/Invariant: well-formed playlists; the modules below it show that operations keep
--   them. Playlist/Session: histories of calls. Playlist/Continuity: what happens to the current track.
--   Playlist/Revisions: the revision and `AddSmart`. Playlist/Navigation/*: laws of the navigation.
--   Playlist/Stored: playlist/tracktoml.go and `IsURL` of playlist/url.go, what a store keeps of a track.
--   Gapless: `Stream` as three steps, `SetNext`, `Replace` and `Clear`. Gapless/Transitions: histories in
--   which these interleave; Gapless/Buffers: the samples that `Stream` leaves.
--   History, Favorites: the stores; History/Recency, History/Recording and Favorites/Membership: their
--   laws. Fuzzy: `Match`.
--   Ipc/Jobs: the job store up to `Create`; Methods: its other methods; below it also its invariant,
--   which job is given up for a new one (Eviction, Admission), the state machine of a job and
--   `CancelAll`. Ipc/Broker: the event broker with `Publish`; Subscribing: its other methods; below it
--   what `Publish` delivers, which calls can wait, and histories of calls.
--   NavBuffer: the download and `Close`; Reader: the readers; System: how they interleave; Contents: the
--   invariant of the file; Keeping, Progress, Reads, Wakeups and Histories: what each step keeps; Runs
--   and Closing: what follows for runs.
--   Tap: the ring of the latest frames (player/tap.go); Window: where each frame stands; Clock: the
--   frames played since the last write; Latest and Readers: what the readers get.
--   Toml: `ParseNamedSections` and `Unquote`. Pins: the pinned places and their file; below it the
--   round trip through the text, and `Toggle`.
--   Tests: small inputs.
--
-- Modelling. An exported method holds the mutex from its first line to its last, so it is one step. A
-- value stands for each copy that the code makes. Track indices and positions are natural numbers,
-- since no operation makes them negative, and `none` stands for -1; an `int` argument is a signed
-- number. Code that indexes a slice returns an `Outcome`, whose `panic` is Go's run-time panic. A slice
-- remembers whether it is nil, which `Restore` compares. The draws of `rand.Intn` in one shuffle are a
-- function within its bounds, an argument of the operation. The revision, the streamer's version and
-- its tokens wrap around at 2 ^ 64. A map is its entries in key order, or its latest entry for each key.
-- `slices.Sort` is an insertion sort on track indices. Every loop runs over a list or a number, so no
-- fuel is needed. The file of a store is the entries that its parser gives, and what is
-- written stands there as it will be read, without the fields that the text does not keep; whether the
-- lock is had and the write succeeds is an input. `unicode.ToLower`, the test for a blank path and what an audio source
-- reads are parameters. In ipc, player/nav_buffer.go and external/radio the clock, the random
-- identifiers, the answers of bodies, files and locks are inputs, and `json.Valid`, `%q` and
-- `strconv.Unquote` are parameters. A channel is its buffered values and a capacity; a send to a full one
-- that the code does not guard is a step that does not return. Texts of files are code points.
--
-- Not modelled: the characters of the stores' text, the parsing of URLs and tags, the audio pipeline around the
-- streamer, the user interface, network services and plugins: input and output, or code of other
-- packages that the source only calls.
pub mod Base
pub mod Playlist
pub mod Fuzzy
pub mod History
pub mod Favorites
pub mod Gapless
pub mod Ipc
pub mod NavBuffer
pub mod Toml
pub mod Pins
pub mod Tap
mod Tests
