-- ===== src/Lib.antt =====
-- EleBBS in Go: a bulletin board that callers reach by telnet, WebSocket, SSH or at the console,
-- with the file formats of RemoteAccess. This library models parts of it and proves what makes
-- them correct.
--
-- The parts and how they work together:
-- * A caller's connection is a byte stream. `internal/comm/telnet.go` takes the telnet commands out
--   of it; under a web terminal it runs on `internal/telsrv/websocket.go`. Module Comm.Telnet has
--   `Telnet`, `Read` (`read`, whose loop body is `round`), `Write` (`write`), the answers to option
--   requests (`send_will` and its kin) and `Close`. Module Telsrv.Websocket has `wsConn`,
--   `readFrame` (`read_frame`), `writeFrame`, `decode`, `Read` and `Write`.
-- * The sysop's window shows what a caller sees: `internal/comm/ansiscreen.go`, module
--   Comm.AnsiScreen, with the console as a parameter (`ScreenOps`, the interface `screenOps`).
-- * A connection takes a node from the pool of `internal/telsrv/server.go`, module Telsrv.Pool
--   (`AcquireNode`, `ReleaseNode`), which chooses it by `FirstFree` of `internal/online/useron.go`,
--   module Online.FirstFree; Telsrv.Pool.Ownership has the connections' goroutines as steps. A
--   node shows who is on line by a record of useron.bbs: Online.Useron (`Encode`, `Decode`) and
--   Online.Useron.Slots (`ReadSlot`, `writeSlot`); Online.EmptyNode (`EmptyNodeNr`) looks for a free
--   slot, and Online.Presence has `Write`, `Kill` and `ReadAll`.
-- * Records on disk are packed: `internal/pascal`, modules Pascal.Buf (`Buf` as a reader monad,
--   `Writer` as a function on the bytes written), Pascal.Cp437 and Pascal.Text. On them stand the
--   codecs of `internal/cfgrec`: Cfgrec.User, Cfgrec.SysInfo, Cfgrec.Protocol, Cfgrec.EleConfig,
--   Cfgrec.TelnetCfg, Cfgrec.Areas; and Files.Tag for the tagged files of `internal/files/tag.go`.
-- * Access rests on flags and levels: Cfgrec.Flags has `Flag` of `internal/cfgrec/types.go`
--   (`FlagAccess`, `SetNamed`, `HasNamed`, `ToggleNamed`, `ChangeMenu`), Files.Access the checks of
--   `internal/files/groups.go`. Cfgrec.Addr has the FidoNet addresses of the same `types.go`.
-- * Messages are kept in JAM bases, five files each: `internal/mail/jam.go` and
--   `internal/mail/jam_rw.go`, module Mail.Jam. Mail.Jam.Message has `Article`, the subfields of
--   its header (`jamSub`, `parseJamSubs`) and its text (`splitJamText`, `stringsCRLF`);
--   Mail.Jam.Store reads (`jamFindMsg`, `articleAt`, `ReadMsg`); Mail.Jam.Change writes
--   (`AppendMsg`, `jamChangeAttr`, `SetLastRead`), with `Stats` and `jamLastRead`. `Base` is the
--   bytes of the files, each there or not.
-- * The users of the board are a file of user records and an index of name checksums:
--   `internal/userbase/users.go`, module Userbase (`Search`, `Read`, `writeUser`, `Append`, `List`,
--   `RebuildIndex`, `CheckPassword`, `SetPassword`), over the bytes of both files.
-- * Messages are written in the editor of `internal/menu/fsed.go`, modules Menu.Fsed (the lines and
--   the cursor), Menu.Fsed.Typing (what is typed, and the quotes) and Menu.Fsed.Keys (`handleKeys`
--   and `run`). The answers of its menus are inputs beside the keys, and what it shows is left out.
-- * Message text is cut into lines by `internal/mail/wrap.go`, module Mail.Wrap. Names and packets
--   are checked by the sums of `internal/crc/crc.go`, module Crc.
-- * Base holds what the modules share, and the parts of the Go library that the code uses: decimal
--   numerals, white space, UTF-8, base64, and the laws of exclusive or.
--
-- Conventions. A Go string that holds text is a list of characters (`Text`), where its bytes
-- matter a list of bytes (`Bytes`). Words of w bits are natural numbers, with the wrap-around
-- written out; signed words are integers (Base.Int). `int` has 64 bits. An array is a list of its
-- length; `[256]bool` and the map of nodes are functions. A connection's input is the list of the
-- bytes still to come and ends where the connection fails, and what is sent is collected; in
-- Comm.Telnet each byte also says whether the buffer is empty behind it, which is where `Read` may
-- stop; `filled` marks the bytes that arrive together, in fills of the buffer's 4096 bytes. Errors
-- are the last component of what an operation returns.
--
-- Bounds on loops. `Read` of Comm.Telnet gets one round more than there are bytes to come, and
-- every round takes a byte, so it never runs out (Comm.Telnet.Loop); the same holds of `Read` of
-- Telsrv.Websocket, where a frame takes two bytes. `ChangeMenu` gets as many rounds as bytes and
-- takes at least one in each (Cfgrec.Flags.Menu); `writeSlot` writes an empty record a round and
-- needs at most as many as the node's number; the numerals of Base.Decimal have at most 20 digits,
-- enough for 64 bits. `parseJamSubs` takes eight bytes a round at least and gets as many as there
-- are bytes; `jamFindMsg` gets as many chunks as slots (Mail.Jam.Search); the loops over the
-- last-read records take sixteen bytes a round.
--
-- Not modelled: where the user files are found and the defaults of a new user, locks (each
-- modelled operation runs under its lock or in one goroutine), time-outs and deadlines, failing
-- writes to a connection, the HTTP upgrade of a WebSocket, process spawning, sockets, consoles and
-- files as such. The write of `writeUser` may fail with an error after any number of bytes (`written`);
-- elsewhere a file that can be opened takes every write. The terminal dialogue, menus,
-- scripts, the other mail of `internal/mail` (queues, mailboxes, MIME) and the network services
-- FTP, NNTP, SMTP and POP3 are outside this library. The date that the age check reads, and the
-- time that `Write` stamps, are parameters.
pub mod Base
pub mod Cfgrec
pub mod Comm
pub mod Crc
pub mod Files
pub mod Mail
pub mod Menu
pub mod Online
pub mod Pascal
pub mod Telsrv
pub mod Userbase
