-- ===== src/Lib.antt =====
-- timberlake copies every file of a source to a destination: each is a directory, an S3 bucket or an
-- SFTP server. main.go reads the settings and starts the terminal interface (ui), whose Update scans
-- the source and starts a pool of workers; each worker takes an item, asks the destination whether
-- it has it, and calls the destination's Put (transfer), which resumes an interrupted copy. The
-- workers report on a channel of messages, which Update reads. The web package shows the progress to
-- browsers on the LAN, or through a tunnel whose program it can install.
--
-- The files, with the code that they model:
--   Base, Base/*       helpers: lists and slices over native numbers, int32 and int64 as bit patterns
--                      with their wrap-around (Words), signed integers (Int).
--   Io                 io.Reader, io.CopyN, io.ReadFull, errors and results; Item and OpenFunc of
--                      transfer/transfer.go. A reader is the chunks that it gives, and its error.
--                      `Serves` says that OpenFunc gives the bytes of a content from each offset.
--   Strings            functions of the package strings.
--   Copy               io.Copy through the counting reader, and the comparison of prefixes, which
--                      transfer/localfs/localfs.go and transfer/sftpbackend/sftp.go share.
--   Localfs, Sftp      Put and partialMatches of these two files. The destination file is its bytes;
--                      what the operating system or the server answers in a run is the record `Env`,
--                      over which everything is quantified, a disk that fills up included.
--   Localfs/Listing    New, Scan, Stat and Open of localfs.go, over what the walk meets and the
--                      operating system answers.
--   Sftp/Listing       Scan, StatAll, Stat, Open and relPath of sftp.go, over what the walk meets.
--   S3/Client          S3, uploadCounters, partBytes of transfer/s3backend.
--   S3/Service         the AWS SDK and MD5: a parameter, with its documented laws; S3/Service/Memory
--                      is a service that has them.
--   S3/Existing        validExistingParts and partMD5Matches.
--   S3/Missing         uploadMissingParts and uploadPart of transfer/s3backend/internal.go: the loop
--                      and its goroutines as steps of one state. A list of events is a schedule.
--   S3/Resume          Put, findInProgressUpload, resumeMultipart, freshMultipart, sortCompleted.
--   S3/Keys            BuildKey of s3.go, Scan and StatAll of internal.go, over the pages listed.
--   S3/Stat            Stat and Open of s3.go and internal.go, over what the service answers.
--   S3/Wire            countingTransport of internal.go: the reads and returns of requests as events.
--   Sizes              a map[string]int64, which the listings return and the pool looks up.
--   S3/Parts           the arithmetic of the parts.
--   Ui/Model           the types of ui/model.go that the messages touch; the animated bars are left
--                      out, and float64 is a parameter.
--   Ui/Update          the cases of Update in ui/update.go for the scan, the bulk listing and the
--                      workers, with recordHistory, sampleRate, resetWorker, recalcUploadedBytes and
--                      liveTransferredBytes.
--   Ui/Keys            the keys of ui/update.go that quit, pause and navigate.
--   Ui/Share           the keys of ui/update.go for the page that is shared (o, r, w, d) and
--                      startTunnel, over Web/Tunnel and Web/Lan, with its callback as a step of its
--                      own; ui/link.go.
--   Ui/Screen          where View of ui/view.go and the panels of ui/panels.go put their lines, and the
--                      mouse and the size of the window in Update. A row is a line of a terminal that
--                      is wide enough; `on_screen` has lines that wrap. The viewport of bubbles is an
--                      argument.
--   Ui/Speed           sampleSpeed and refreshCatchUpETA of ui/update.go.
--   Ui/Start           InitialModel and startScanCmd of ui/model.go, and what startWorkerPool reads.
--   Ui/Panels          the lines and badges of ui/panels.go as values, without their styles.
--   Ui/Summary         renderSummaryBox, formatSpeed and formatETA of ui/view.go.
--   Ui/Page            the page that View chooses, renderHeader, renderCatchUpPanel, the upper half of
--                      renderWorkerDetail, renderProgressPane of ui/panels.go, totalBarRatio.
--   Ui/ErrorLog        WriteErrorLog of ui/errors.go: the name of the file and its bytes, over how
--                      many of them each write takes.
--   Ui/Pool            startWorkerPool of ui/update.go with the gate of ui/pause.go: the workers as
--                      stages of one state, and a step for each move of a worker, of the user and
--                      of the context. A list of moves is a schedule.
--   Config             ParseS3Cfg and ParseDestination of config/config.go, over the lines of the file.
--   Endpoint           ParseEndpoint of transfer/transfer.go, over what url.Parse answers, and the
--                      choice of a backend in backends/backends.go.
--   Program            main.go: the settings of a run, how `run` ends, the exit status. The terminal
--                      interface and the backends are arguments.
--   Ui/Listing         bulkStatCmd of ui/update.go, after StatAll.
--   Ui/Publish         publishWeb and phaseName of ui/update.go.
--   Ui/View            formatNumber, formatBytes and renderBufferBar of ui/view.go; float64 is an
--                      argument.
--   Demo/Source        the options of --demo and the synthetic source of transfer/demo/demo.go.
--   Demo               the destination of transfer/demo/demo.go; its loop has the fuel of one turn for
--                      each byte and one more, which is enough as each tick moves a byte.
--   Web/Tunnel         web/tunnel.go: Start, Stop and the two goroutines of each process as events.
--   Web/Install        web/install.go: an install from its answers to what is at ManagedPath.
--   Web/Hub            web/snapshot.go, and Publish and handleWS of web/server.go: the browsers as
--                      records of one state, and an event for each case of their loops.
--   Web/Lan            lanIP, SetRemoteURL and ShareURL of web/server.go.
--   Tests              runs at concrete inputs.
--
-- Bounds: `S3.Parts.Fits` has the sizes for which no int64 offset and no int32 part number overflows
-- (a positive part size, and the file and one part more below 2^63). The source is assumed not to
-- change during a Put, and hashes not to collide on the bytes at hand; both are hypotheses. The loops
-- of the copies are over chunks, and a run of uploadMissingParts is over its schedule, which has a
-- bound (S3/Missing/Ends). On fuel are the loop of the demo, and that of formatBytes, for which six turns
-- are enough.
--
-- A goroutine of uploadMissingParts is one step, since its call of UploadPart takes effect at one
-- point and its other writes are under a lock; the read of firstErr by the loop is modelled as if it
-- were synchronised, which it is not.
--
-- A Publish is two events, the store and the wake-up of the subscribers, since browsers move between
-- them; one writer publishes at a time, as the interface does. A file system that fails between two
-- calls of an install is covered by its answers.
--
-- A viewport keeps the offset that it is given if that leaves no line free: what bubbles documents of
-- SetYOffset, and a hypothesis where it is needed. float64 quotients are arguments; the breakout bar
-- assumes that they are rounded down, which holds for counts below 2^40.
--
-- Not modelled: styling, the flags as cobra defines them, what the HTTP server serves apart from the
-- updates, and the programs speedtest and s3diag, which measure a live service.
pub mod Base
pub mod Config
pub mod Endpoint
pub mod Copy
pub mod Demo
pub mod Io
pub mod Localfs
pub mod Program
pub mod S3
pub mod Sftp
pub mod Sizes
pub mod Strings
pub mod Tests
pub mod Ui
pub mod Web
