-- ===== src/Lib.antt =====
-- datn-backend: the server that pairs PC agents with the accounts of their owners, as a library of
-- definitions in the shape of the Go code and theorems about them.
--
-- The program. cmd/server/main.go reads the configuration (internal/config), builds the parts and
-- serves. An HTTP server (internal/delivery/http) hands requests to the use cases (internal/usecase),
-- which work on a PostgreSQL database through repositories (internal/repo/postgres), issue JWTs
-- (internal/token) and notify phones through FCM (internal/notification). An MQTT client (internal/mqtt)
-- receives the alerts and the statuses of the agents and sends them commands. A user registers a phone
-- number with a one-time code, logs in, and exchanges refresh tokens; an agent starts a pairing and
-- shows a device code, the user confirms the code, and the agent asks for the status of the pairing
-- until it gets its secret, which it authenticates with. An alert of a paired agent is stored, unless
-- the agent has sent one of the same type within five seconds, and sent to the devices of its user.
--
-- The files.
--   Prelude, Text: Boolean tests, lists over native numbers, tables as lists of rows; a string is the
--     list of its UTF-8 bytes, with strings.TrimSpace, ToLower and ToUpper and base64.RawURLEncoding.
--   Domain, Errors: internal/domain, and the error values of internal/usecase and internal/repo.
--   World: the tables of internal/database/migrations, and `Env`, the sources outside the program.
--   Action: a Go function that returns (value, error) and acts on the database is a function from the
--     world to a result and the next world; `statement` and `transaction` are the two ways to reach the
--     database. Action.Keeps has the rules for invariants, Action.Sequence and Action.Transactions what
--     a success or a failure says of the parts.
--   Repo: internal/repo/postgres, one file for each repository (auth_otp_repo.go, user_repo.go,
--     refresh_token_repo.go, registration_repo.go, pc_agent_repo.go, pairing_session_repo.go,
--     mobile_device_repo.go, alert_repo.go), one function for each method. The CHECK, UNIQUE and
--     FOREIGN KEY constraints of the migrations that a statement can meet are tests of the statement.
--   Token: internal/token/service.go.
--   Auth: internal/usecase/auth_usecase.go. Auth.Inputs has the normal forms, Auth.Register
--     RequestRegisterOTP, VerifyRegisterOTP and CompleteRegister, Auth.Sessions the other methods;
--     Auth.Register.Entry is about both;
--     Auth.Requests runs sequences of them, Auth.Revocation says what they do to refresh tokens, and
--     Auth.Ledger is the abstract view of these tokens.
--   Pairing: internal/usecase/pairing_usecase.go. Pairing.Codes generates codes and secrets,
--     Pairing.Start has StartPairing and ConfirmPairing, Pairing.Status GetPairingStatus, Pairing.Agents
--     the methods of a paired agent, Pairing.Devices RegisterMobileDevice; Pairing.Requests runs
--     sequences of them, and Pairing.Confirmations and Pairing.Credentials say what they do.
--   Alerts: internal/usecase/alert_usecase.go. Alerts has CreateAlertFromAgent and ListAlerts,
--     Alerts.Texts the types and the messages, Alerts.Delivery what follows the INSERT: the
--     notification and cleanupInvalidNotificationTokens. Alerts.Spacing, Alerts.Recent,
--     Alerts.Duplicates and Alerts.Cleanup are about the suppression of duplicates and the removal of tokens.
--   Notification: internal/notification. Notification.Fcm is the message and the report of
--     fcm_sender.go, Notification.Fcm.Calls what it asks of the outside, and Notification.Fcm.Access its
--     access token.
--   Json, Http: internal/delivery/http. Http.Replies is response.go, Http.Middleware middleware.go, a
--     file for each handler, and Http.Router the routes of router/router.go. Http.Access, Http.Sessions
--     and Http.Isolation compose the routes with the token service and the use cases.
--   Config: internal/config/config.go.
--   Mqtt: internal/mqtt/subscriber.go and publisher.go. Mqtt.Lengths, Mqtt.Packets and Mqtt.Publish are
--     the packets and what a packet makes the subscriber do; Mqtt.Connection has connect, subscribe,
--     readLoop, runOnce and Run, Mqtt.Connection.Messages and Delivery what becomes of the packets of a
--     broker, and Mqtt.Commands the publisher of protection commands.
--   Server: cmd/server/main.go: the handlers of MQTT messages and what main builds. Server.Steps is the
--     server as a state machine, a step being a request, a message or the passing of time; Server.Keeps
--     has what every step keeps; Server.Invariants, Server.Ledger and Server.Sessions apply it.
--   Tests: the theorems at concrete inputs, in an environment that satisfies their hypotheses.
--
-- How the code is modelled.
--   The record `Env` has one function for each source outside the program: the clocks, the random
--   numbers, the fresh UUIDs, whether a statement fails, bcrypt, SHA-256, the JWT package,
--   mail.ParseAddress and the Unicode tables. The effects of a run are numbered, and a source is asked
--   with the number, so it may answer differently each time; a theorem holds for all of them. What the
--   code relies on is a named hypothesis: IsBcrypt, IsRandom, IsJwt. The claims of a JWT have a list of
--   audiences and optional dates; that a text without them may be accepted is left to the parameter.
--   A statement that fails leaves the tables as they are; a value that does not fit its column is such
--   a failure. A transaction that does not commit leaves what was there at its start. Requests run one
--   after the other: what concurrent requests do between the statements of each other is not modelled.
--   An instant is a number of nanoseconds, a time.Duration a number as well; a UUID is a text in its
--   canonical form. The zero time.Time is `none`; instants before 1970 do not occur, and a column keeps
--   the nanoseconds. ORDER BY by a text asks the collation of the database. ORDER BY with LIMIT 1
--   picks the last inserted of the rows with one key.
--   The six digits of fmt.Sprintf("%06d", n) are those of a number below 1000000, which rand.Int gives.
--   Loops: StartPairing recurs on the rounds that are left of its ten; readRemainingLength on the four
--   bytes that it may read; encodeRemainingLength on a number above the length, which its division by
--   128 cannot use up; readLoop on one more than the bytes that are to come, each round taking one at
--   least; Run on the number of rounds it begins before its context is done; a number in decimal on one
--   more than itself. Mqtt.Connection.Termination proves that readLoop does not run out. What the model
--   says of time: a connection is the bytes that come on it and then its end, where the broker closes
--   it, or silence. A read of a closed connection fails; a read of a silent one waits for ever, as the
--   code sets no deadline, and then Run has no further round; only the PUBACK that the publisher
--   awaits has a deadline. The context, which ends a wait, is done after the run that is modelled.
--   Handlers get a decoded body from `Codec`, the standard library's JSON and format of instants, whose
--   refusal is the error of decodeJSON; a reply is a status, a JSON value and the command that the
--   handler gives to a goroutine. `Settings` has the environment variables, `Payloads` the JSON of the
--   MQTT messages, `Network` what the broker sends, whether it closes the connection then, and which
--   writes fail, and `Google` the files, the
--   HTTP answers, the JSON and the cryptography of the FCM sender, whose effects are numbered apart. The
--   alert use case takes a sender as a function of the step; a theorem about it holds for every sender,
--   whatever access token it has kept.
--   A panic of the publisher is `none`, one of the generator of device codes an error of its own.
--
-- Not modelled: the matching of the ServeMux, http.Server, the signals and the shutdown of
-- cmd/server/main.go, logging, contexts and their deadlines, the goroutine that closes a connection, the
-- mutex of the FCM sender, and internal/database/postgres.go, which opens the connection: all of them
-- are calls of the standard library or I/O. NewRouter of internal/delivery/http/router.go is not used
-- by main.
pub mod Prelude
pub mod Text
pub mod Domain
pub mod Json
pub mod Errors
pub mod Config
pub mod World
pub mod Action
pub mod Repo
pub mod Token
pub mod Notification
pub mod Alerts
pub mod Auth
pub mod Pairing
pub mod Mqtt
pub mod Http
pub mod Server
pub mod Tests
