-- ===== src/Lib.antt =====
-- Retro-Cloud-Sync keeps contacts and calendars of an old Mac or iPhone in step with a CardDAV and
-- CalDAV server. This library models its portable core, source/shared, whose C code decides what is
-- sent to the server and what is stored, and the mail proxy of the daemon of the Mac.
--
-- The parts, and the files that model them:
--
--  * Journal (source/shared/RCWriteJournal.c): the durable queue of outgoing writes. Model.antt has
--    the tables of RCWriteJournalInitialize: a `Db` holds each as the list of its rows in ascending
--    rowid order, with the autocommit flag of the connection. Enqueue, Attempt, Resolve and Attention
--    have one function for every function of the header, from `RCWriteJournalSetBase`
--    (`set_base`) to `RCWriteJournalResolutionMirrored` (`resolution_mirrored`). Invariant, Calls,
--    History, Due and Replay hold the theorems; `Calls.run` makes any sequence of calls.
--  * Http (source/shared/RCHTTPClient.c): Receive.antt reads bodies and headers, Request.antt is
--    `RCRequest` with its loop over redirects, and the three entry points `RCHTTPClientRequest`
--    (`client_request`), `RCHTTPClientConditionalRequest` (`conditional_request`) and
--    `RCHTTPClientMove` (`client_move`).
--  * Writer (source/shared/RCDAVWriter.c): `RCDAVWriterAttempt` (`attempt`) takes one operation of the
--    journal to the server and records what it saw there.
--  * Recovery (source/shared/RCConflictRecovery.c): `RCConflictRecover` (`recover`) queues a
--    successor of a conflict, and `RCConflictComplete` (`complete`) finishes it.
--  * Photo (source/shared/RCPhotoCodec.c): base64 of contact photos.
--  * Policy (source/shared/RCSyncPolicy.c): field tables, and the comparison of records.
--  * Vcard (source/shared/RCVCard.c): unfolding and decoding of vCards, and their mapping to a document,
--    with RCPhotoFromVCard, and in Streams.antt the growth of buffers and the stream that libvc
--    reads from; Icalendar (source/shared/RCICalendar.c): the checks in front of libical;
--    Followup (source/shared/RCSyncFollowup.h): the delay before the next sync.
--  * Dav (source/shared/RCDAVClient.c): Tree.antt walks XML answers, Discover.antt is
--    `RCDAVDiscoverHref` (`discover_href`) and `RCDAVListCollections` (`list_collections`),
--    Inventory.antt the listings of resources, Pages.antt reads one node of a sync report, and
--    Collect.antt is `RCDAVSyncCollection` (`sync_collection`) with its loop over pages.
--  * Sync: Staging.antt is the private table of a download (source/shared/RCDAVStaging.c), and Tokens.antt
--    the sync tokens in the mirror's database (source/shared/RCDAVSyncState.c).
--  * Patch (source/shared/RCResourcePatch.c): Folding.antt writes and reads folded lines, Edits.antt
--    checks the edits, Scanning.antt is the loop over the lines of the base, and Splicing.antt is
--    `RCResourcePatch` (`patch_resource`) and `RCResourceEnqueueEdits` (`enqueue_edits`).
--  * Mail (source/macOS-daemon/RCMailProxy.c): Sending.antt is `RCSendAll` (`send_all`), and Smtp.antt
--    the reading of responses and `RCPrepareSMTPStartTLS` (`prepare_smtp_start_tls`); Relay.antt is
--    `RCRelayConnection` (`relay_connection`) turn by turn.
--  * Prelude holds what they share; Tests runs the theorems on concrete data.
--
-- How the code is read:
--
--  * A function that returns 0 with an `RCError` returns `err` with the error's code, as the 32-bit
--    pattern of the `int`, and the format of its message; one that returns 1 returns `ok`. A function
--    that changes the database returns the new one beside its result.
--  * The outcome of every statement is a parameter: `io k` says whether the statement with number `k`
--    of the function, in the order of its text, succeeds. ROLLBACK and ROLLBACK TO bring back the
--    tables as they were. Foreign keys are among the causes for which a statement fails.
--  * Memory does not run out. A pointer to a string is an `Option` of its bytes, and a pointer with a
--    length is a `Buffer`. A string of the enumerations `kind` and `state` that names none of them
--    is treated as NULL, as the code does.
--  * libcurl and the servers are the parameter `Network`: parsing and resolving of URLs, one transfer
--    as a function of the requests sent so far, and the flag RCStopRequested. A trace lists the
--    requests that were sent, the latest first.
--  * libvc (`Parser`) and libical (`Library`) are parameters, a function of the text each; streams and
--    mutexes do not fail, and `unfold_text`, `scan_lines`, `fold_pieces` and `omit_empty_optional_properties` run on the length of
--    the text, as every turn of their loops takes a character.
--  * What `send` and `recv` of a mail socket return is a list of outcomes, one for each call; an empty
--    list is a socket that fails.
--  * libxml2 is the parameter `Xml`: the reading of a document, the content of a node and the escaping
--    of a text. The walk over the nodes is the code's.
--  * The callbacks of conflict recovery and the record adapters of RCSyncPolicy.h are parameters.
--  * `size_t` has 64 bits and `int` 32. Sums and products in `size_t` are reduced modulo 2 ^ 64.
--    The loop of `RCRequest` runs on the rounds left, six at the start, as many as RCRequest makes
--    (redirects 0 to RC_HTTP_REDIRECT_LIMIT); `grow` runs 64 turns, which double any capacity past
--    2 ^ 63; `sync_pages` runs on the pages left, 1024 at the start as in the code, and `decimal` writes at most 20 digits, which is enough for a `long long`.
--
-- Not modelled: the file copy of RCWriteJournalBackup, the setting of libcurl's options and the text
-- of header lines, the other readers of calendars, the stores and mirrors of source/shared and the list of
-- connections of the mail proxy, which are to follow, and the Objective-C programs around them.
pub mod Prelude
pub mod Journal
pub mod Http
pub mod Writer
pub mod Recovery
pub mod Photo
pub mod Policy
pub mod Vcard
pub mod Icalendar
pub mod Followup
pub mod Sync
pub mod Dav
pub mod Patch
pub mod Mail
mod Tests
