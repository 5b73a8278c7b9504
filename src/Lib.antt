-- ===== src/Lib.antt =====
-- Passbubble, a password manager: a server that keeps encrypted entries, folders, shares and
-- accounts in PostgreSQL, and a command-line client that unlocks them.
--
-- The server's handlers (backend/internal/api/handlers) are functions from what one request sees of
-- the world, the caller and the database to the database afterwards and a response:
--   Store        the tables (backend/internal/db/migrations), the world of a request, responses,
--                chains of statements, foreign keys and ON CONFLICT
--   Entries      entries.go: create, update, delete, share; Entries/Access has entryPerm and the
--                entry types, Entries/History has snapshotVersionTx of trash_versions.go
--   Reading      entries.go: what ListEntries, ListEntriesFull and GetEntry show; Reading/Lists has
--                SearchEntries, ListFolders, ListTrash, ListVersions and GetVersion
--   Trash        trash_versions.go: restore, purge, favourite, restore of a version; purgeOnce of
--                backend/internal/services/purge.go
--   Router       the entry routes of backend/internal/api/router.go that may change the state, as one
--                function of a request
--   Auth         auth.go and totp.go: Auth/Sessions has issueTokens, Refresh and Logout, Auth/Login
--                has Login, Me and the middleware of backend/internal/api/middleware/auth.go,
--                Auth/Registration has Register and VerifyEmail, Auth/TwoFactor has totp.go
--   Admin        admin.go and the key material of users.go
--   Folders      folders.go: create, update with its cycle guard, recursive delete, share
--   Shares       shares.go: revoking entry and folder shares
--   ShareLinks   share_links.go: creating, opening, revoking and deleting public links
--   Jobs         jobs.go: the ledger of imports and exports, a table of its own
--   RateLimits   backend/internal/api/middleware/ratelimit.go: the limiters by client address, and
--                the choice of that address
--   LegacyGenerator generate.go: the server's own password generator
-- Csv has the CSV files of backend/pkg/importers and backend/pkg/exporters: header detection, the
-- reading of rows, and the row that is exported.
-- The client (cli/internal):
--   Pin          vault/pin.go with Unlock of vault/vault.go and ClearPIN of config/config.go, the
--                state in memory apart from that of the configuration file
--   Tags         vault/tags.go: normalising, matching and editing tags
--   Resolving    cli/resolve.go: the one entry that an argument of a command names
--   HybridKeys   crypto/crypto.go: data keys wrapped for a recipient, in both formats
--   Sealing      vault/vault.go: CreateEntry and GetEntry, and in Sealing/Changing what updates, moves
--                and deletes, as calls of the server's handlers of Entries, Reading and Folders;
--                Sealing/Upgrading has the change to hybrid keys of vault/upgrade.go
--   Importing    cli/importexport.go behind the parsers, with vault/records.go and SameSecret of
--                cli/pkg/totp/totp.go: merging, and in Importing/Loop the loop over the records
-- Its packages (cli/pkg):
--   Generator    generator/generator.go: passwords, passphrases, symbol sets and the strength of a
--                password; Generator/Kinds has the kinds but for the strong one, Generator/Strength
--                the check of a password's strength
--   OneTimeCodes totp/totp.go: stored settings, otpauth URLs and the spellings of a secret
--   Backups      backup/backup.go: writing, reading, restoring and listing backups
-- Prelude has the shared names, lists, integers and what the SQL statements do to tables; Texts has
-- texts as lists of code points, with what the packages strings and unicode do to them; Tests has the
-- theorems at concrete inputs. A child of a component that has no code of its own is named for what
-- it proves.
--
-- How the model corresponds to the code:
--   * `World` has the database's NOW(), the server's clock (both in seconds), the UUIDs drawn and
--     which of the request's database calls fail, by number, and after how many rows the reading of a
--     call's result breaks off: a theorem holds for every pattern of failures. Where the code drops an error, the statement changes nothing; where it returns or
--     rolls back, the database is the one of before. Limits on the length of a column are among the
--     failures.
--   * Ids are numbers that stand for UUIDs; an id in a body is a text that may be blank, malformed or
--     another spelling of a UUID. Ids in paths are taken to be UUIDs as the server spells them.
--   * A request body is `none` where it is no JSON; a handler that answers 204 answers `tt`.
--   * Handlers run one after the other: requests that overlap are not modelled.
--   * JWT, bcrypt, SHA-256, Argon2id, AES-GCM, base64, the random generators, the mailer, time.Parse,
--     the check of one-time codes and unicode.ToLower are parameters (`Server`, `Links`, `Client`,
--     `World`), as are X25519, ML-KEM-768 and HKDF (`Primitives`), encoding/json (`Library`, and
--     arguments of the definitions of Backups), net (`Net`) and golang.org/x/time/rate. Rows of a CSV
--     file are lists of cells: encoding/csv reads and writes the file itself.
--   * A password is drawn from a stream of the indexes that crypto/rand gives, which may end in an
--     error.
--   * The recursive queries of folders.go run on fuel, one round per row of the table; in a forest
--     that is enough (Folders/Reach).
-- Columns that no modelled statement reads are left out, such as most creation times. Not modelled:
-- the other handlers that only list, the importers of Bitwarden, 1Password, Psono and
-- KeePass files, the computation of one-time codes, the mailer, the server's start, the configuration
-- but for the PIN, and the terminal, app and browser interfaces.
pub mod Prelude
pub mod Texts
pub mod Store
pub mod Entries
pub mod Trash
pub mod Reading
pub mod Auth
pub mod Admin
pub mod Shares
pub mod ShareLinks
pub mod Folders
pub mod Jobs
pub mod Pin
pub mod Tags
pub mod Generator
pub mod RateLimits
pub mod Resolving
pub mod HybridKeys
pub mod Sealing
pub mod Csv
pub mod Backups
pub mod Importing
pub mod OneTimeCodes
pub mod LegacyGenerator
pub mod Router
pub mod Tests
