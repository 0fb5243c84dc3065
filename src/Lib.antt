-- ===== src/Lib.antt =====
-- A verification library for the distributed cloud storage system.
--
-- The program is a mail and file service. Its users talk to frontend servers (frontend/), which keep
-- all data in a replicated key-value store (backend/kvstore/). A master process knows the servers of
-- the store: it tells a frontend which server to use, hears the heartbeats of the servers, and names
-- the primary of each replica group. A write goes to the primary, which has the live secondaries do
-- it first; a secondary passes a write on to its primary. Each server logs its writes in a file,
-- moves its table to a disk file every third write, and reads both when it starts. What a dead
-- secondary misses the primary keeps in a file of the shared storage folder.
--
-- Parts, and the files that model them:
--   Prelude, Text: shared types, and the operations of std::string that the sources use (`find`,
--     `getline`, `stoi`, `to_string`). A byte is a natural number, a string is a list of bytes, and
--     an int is `ℤ` of Prelude.Int. `stoi` throws outside of 32 bits.
--   Kvstore.Config: `ServerInfo` and `parseServers` of backend/kvstore/helper.h.
--   Kvstore.Split, Kvstore.Table, Kvstore.Server: `splitKVStoreCommand`, the in-memory table, and the
--     global state of backend/kvstore/kvstore.cc with its files, `handleAppend`, `checkpoint_table`.
--   Kvstore.Handle, Kvstore.Forward: `handleCommand`, `forwardToAllSecondaryServers` and
--     `forwardToPrimary`. The network is a parameter: a function from a peer, a command and the
--     state of the world to an answer and the new state.
--   Kvstore.Recovery: `initialize` and `crashRecoveryFunction`. Two views of the files are used: the
--     values of a table (Kvstore.Recovery.Durable), for which a missing entry and an empty one are the
--     same, and its entries (Kvstore.Recovery.Logged).
--   Kvstore.Framing, Kvstore.Connection: the loop over the bytes of a read, and `threadFunc`.
--   Kvstore.Status, Kvstore.Admin: `receiveStatus`, `sendHeartbeat`, `adminConsoleSignalHandler`.
--   Kvstore.Cluster: the network whose peers are themselves servers of the model. Kvstore.Alone is a
--     server without peers, which writes and answers by itself, Kvstore.Stale a secondary that another
--     secondary sends a write.
--   Master: `handleIncomingRequests` (Master.Request), `recvHeartbeat` (Master.Heartbeat),
--     `checkHeartbeats` (Master.Expiry), `receiveAdminConsoleRequest` (Master.Console) and the status
--     messages (Master.State, Master.Mail) of backend/kvstore/master.cc.
--     Master.Obeyed says field by field what a server knows after a status message.
--     Master.Takeover follows a failover from the master to the new primary.
--   Balancer: heartbeats, timeouts and the choice of a frontend server (Balancer.State), and the
--     answer to a browser (Balancer.Worker), of frontend/loadbalancer.cc.
--   Frontend: the texts that frontend/loginHelper.cc takes apart: URL encoding and query strings
--     (Frontend.Url), login forms, replies of the store and multipart bodies (Frontend.Login,
--     Frontend.Multipart); `mailMessage` and frontend/emailHelper.cc (Frontend.Mail).
--   Frontend.Http: `thread_worker` of frontend/frontendserver.cc. Its variables are the record
--     `Worker` (Frontend.Http.State); the requests with a body are in Frontend.Http.Account and
--     Frontend.Http.Files, their dispatch and the check of the cookie in Frontend.Http.Actions, the
--     request line and the headers in Frontend.Http.Request, the loop over the reads in
--     Frontend.Http.Worker. What the worker asks of the store and of the mail server goes through
--     `Site`, functions on a state of the world; a page is recorded with the arguments that
--     `generateReply` of frontend/render.cc gets. Frontend.Http.Store is the store of Kvstore as such
--     a world, Frontend.Http.Password and Frontend.Http.Files.Renaming use it.
--   Frontend.Reading: `connectToBackend`, `sendToBackendSocket` and `readFromBackendSocket` of
--     frontend/readingHelper.cc, on a network that is a parameter (`Network`): how a frontend finds its
--     server of the store, sends it a command and reads the answer.
--   Frontend.Mailbox: `extractEmails` of frontend/render.cc, the mails in the reply of the store to
--     LIST.
--   Smtp: `handle_connection` of smtp/smtpServer.cc. Smtp.Text are the texts it takes apart,
--     Smtp.State its variables and replies, Smtp.Commands the commands but DATA, Smtp.Delivery what
--     DATA does with a mail, Smtp.Connection the buffer and the loops. `World` has what the server
--     calls: the master, the connection to the store, base64, the date. Smtp.Protocol is an abstract
--     state machine of the protocol, Smtp.Dialogue and Smtp.Line are its dialogues and lines,
--     Smtp.Exchange a whole exchange. Smtp.Address joins it to the master, Smtp.Stored to the store,
--     Frontend.Mail.Sent to `mailMessage` of the frontend.
--   Smtp.Queue, Smtp.External: `buildEmailInfo`, the mails that are written back, and
--     `attemptDelivery` of smtp/smtpec.cc, which the server starts for mail to other domains. What
--     the other server sends is a list of reads.
--   Tests: the theorems applied to concrete servers.
--
-- State is passed explicitly. A result of `none` is undefined behaviour or an exception that nothing
-- catches. Fuel: the round robin of the master makes at most one round for each server of a group,
-- which is proved enough; the pieces of the configuration file, the lines of the load balancer, the
-- parts of a body and the digits of a number use fuel that the length or the number bounds. The SMTP
-- server's buffer has 1001 bytes; the loop over its lines has the length of the buffer as fuel, since
-- each line takes bytes from it, which is proved enough. A line of the mail queue has up to 4095
-- bytes. The fuel of a frontend's reads is an argument, since a closed connection is read for ever.
--
-- Not modelled: sockets and their errors other than a connection that fails, threads that interleave
-- on one server (its table has no lock), files that cannot be opened, the clock (times are
-- arguments), and debug output. frontend/smtp.cc is a near copy of smtp/smtpServer.cc, of which the
-- latter is modelled. The rest of frontend/render.cc, and frontend/admin.cc, put HTML together from
-- answers of the store and of the master; the DNS queries of smtp/smtpec.cc are socket code. A NUL
-- in an SMTP command, and the bytes behind the buffer's end, are not modelled. The order of an
-- unordered_map is the order of the list that stands for it.
pub mod Prelude
pub mod Text
pub mod Kvstore
pub mod Master
pub mod Balancer
pub mod Frontend
pub mod Smtp
pub mod Tests
