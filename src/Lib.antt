-- ===== src/Lib.antt =====
-- tk, a ticket manager that keeps feature work as markdown files: the parts of it that decide, as
-- pure functions and explicit state.
-- Go strings are lists of bytes (Prelude/Strings); a Go map keyed by strings is an association
-- list, and a map used as a set a list (Prelude/Maps). `sort.Strings` and `sort.Slice` are
-- insertion sorts by the same strict order (Prelude/Sort).
--
-- Parts:
--     * Order (internal/order/order.go): fractional-index rank keys. `KeyBetween` is
--     `key_between`; the loops over digits and over a common prefix are structural recursions.
--     The entry -1 of an index table is `none`.
--     * Status (internal/status/status.go): the built-in statuses, their categories, and the
--     predicates and lists of the board.
--     * Id (internal/id/id.go, internal/id/mintblock.go): ids, short-ids, minting and collision
--     extension. A randomness source is the list of the bytes that it will give. The inner loop
--     of `Extend` takes fuel, as many rounds as there are odometers of the length, and each round
--     takes the next odometer.
--     * Collision (internal/collision/collision.go): which of two files that claim one id is
--     kept.
--     * Frontmatter (internal/frontmatter/frontmatter.go): the fence of a ticket file, the
--     decoded keys, and the items that are written. `Split` takes as many rounds as there are
--     bytes, and each round takes a line, so the rounds are enough.
--     * Schema (internal/scopeconfig/scopeconfig.go): the statuses and fields that a scope
--     declares, and the checks over them.
--     * FmMerge (internal/fmmerge/fmmerge.go): the three-way merge of frontmatter. It reads
--     stages by Frontmatter, asks Schema for statuses and fields, and renames by Collision and
--     Id.
--     * Depgate (internal/depgate/depgate.go, internal/index/board.go): what a ticket waits on,
--     and the next ticket; it asks Status and Schema what is terminal.
--     * Slug (internal/slug/slug.go): the slug of a title.
--     * Throttle (internal/tkv/throttle.go): the failed-login counter as a state with two steps,
--     `admit` and `finish`.
--     * Resolve (internal/resolve/resolve.go, internal/pathutil/pathutil.go): the scope of a
--     command.
--     * Session (internal/writeengine/session.go, internal/scopeconfig/hold.go,
--     internal/gitstate/durability.go): what refuses a write before its handler starts.
--     Placement, Meta and Mark ask it.
--     * Placement (internal/writeengine/order.go, and MaxValidOrder, ResolveRow and
--     ResolveWriteRow of session.go): where a ticket is put in its scope's order. It asks Order
--     for a key and Depgate for the order of the rows.
--     * Meta (internal/writeengine/meta.go): reading and rewriting one key of a ticket's
--     frontmatter, from the guards to the model that is written (Meta/Changes, Meta/Write). It
--     uses Frontmatter's model, Schema's fields and Placement's row lookup.
--     * Mark (internal/writeengine/mark.go, claim.go, and TerminalLocation): a change of status
--     over the store of ticket files. `relocate` gives the file operations of relocateAndWrite,
--     so that a crash is a prefix of them; `mark` and `claim_marks` (Mark/Handlers) are the
--     handlers.
--     * Title and Reconcile (internal/title/title.go, internal/reconcile/parse.go): the row and
--     the edges that the index gets from a file. The loops over lines take as many rounds as
--     there are bytes, and each round takes a line.
--     * Scopefile and Occupy (internal/scopefile/scopefile.go, occupy.go, prefix.go): the file
--     names and paths of a scope, and what its three directories list and hold. Id's Extend mints
--     against the set that Occupy gives.
--     * Graph (internal/tkv/graph.go): the ranks in the picture of dependencies. The loop over
--     the layers takes as many rounds as there are tickets, and one more, since each round but
--     the last frees a ticket.
--     * AutoName (internal/scope/autoname.go): a scope name from a path.
--     * Rewrite (internal/rewrite/rewrite.go): rewrites of files at an old and a new path, as
--     steps on a store, so that a crash is a prefix of the steps.
--     * BodyEdit (internal/bodyedit/bodyedit.go): the title and the text that are written after a
--     fence. It reads headings by Title.
--
-- Parameters: SHA-256 (`sum256`), the RFC3339 parser (`parse_time`), the YAML decoder
-- (`unmarshal`), Unicode NFKC (`nfkc`), the resolution of symbolic links (`canonical`), the name
-- in a tk.cue (`read_name`), the schema of a scope that is not loaded (`schema_or_nil`), the rows
-- of the index (`rows_of`, `by_id`), and the file system by its answers (`stat`, `read_dir`,
-- `read_file`, `read_model`). What a theorem assumes of them is that two results, such as two
-- digests, differ, that the index has one order key for one path, or that the decoder reads from
-- an interior what YAML makes of the items of a model: a string as a string, and a list of
-- strings as an `[]any` (`through`).
--
-- Not modelled: the SQLite index, git, the pages of the HTTP daemon, the command line and file
-- I/O, which only move data between these decisions.
pub mod Prelude
pub mod Order
pub mod Status
pub mod Id
pub mod Collision
pub mod Frontmatter
pub mod Schema
pub mod FmMerge
pub mod Depgate
pub mod Session
pub mod Slug
pub mod Placement
pub mod Throttle
pub mod Resolve
pub mod Scopefile
pub mod Occupy
pub mod Meta
pub mod Mark
pub mod Title
pub mod Reconcile
pub mod Graph
pub mod AutoName
pub mod Rewrite
pub mod BodyEdit
