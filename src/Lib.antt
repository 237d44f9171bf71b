-- ===== src/Lib.antt =====
-- Verification library for avault, a vault whose secrets are used by agents that never see them.
--
-- The program has three crates. crates/avault-core holds the crypto core (src/lib.rs: envelopes,
-- protected records, exports of the master key; src/blind_box.rs: blind boxes that release a data
-- key for one approved operation; src/signing.rs: signatures). crates/avault-store/src/lib.rs keeps
-- the master key: in a file, in the macOS Keychain, or sealed by the TPM, with a policy that chooses
-- among them.
-- crates/avault-cli/src/main.rs is the command line and the resident agent: it keeps grants, caches
-- the master key, opens secrets with both, and redacts what it returns. The agent opens blind boxes
-- when a grant is requested (BlindBox), publishes the grant (Agent/Grants), loads the master key
-- through its cache (Agent/MasterCache) from the store (Store), and opens envelopes (Core). Its frame
-- handler (Agent/Dispatch) joins these with the helper's pipe (Wire), fetching (Fetch), files (Inject)
-- and signing (Core/Signing); the sub-commands (Cli/Commands) do the same for one shot.
--
-- Files:
--   Prelude        shared names, lists and byte strings measured by native numbers, maps, results
--                  with an error (Prelude/Result) and operations on a state that may fail
--                  (Prelude/Action).
--   Core           crates/avault-core/src/lib.rs. Core/Crypto has `Sealed`, `WrapMeta` and the parameter
--                  `Crypto` (AES-256-GCM, scrypt, base64, serde_json); Core/Envelope has `seal` and
--                  `open` (here `open_sealed`); Core/Open proves what they promise; Core/Protected has
--                  `open_with_dek`; Core/Scrypt has `derive_kek_scrypt`; Core/Export has
--                  `export_master_key` and `import_master_key`. Random bytes are arguments. Core/Signing is
--                  crates/avault-core/src/signing.rs: the schemes and the key material of Taproot over
--                  the parameter `Curve`.
--   BlindBox       crates/avault-core/src/blind_box.rs. `BlindBoxContext` and its builders,
--                  `aad_bytes`, `operation_hash`, and opening over the parameter `Hpke`;
--                  BlindBox/Keypair has the key pair that comes from the master key.
--   Store          crates/avault-store/src/lib.rs. `Disk` is the directory of the stores with modes, and
--                  `IoFaults` says which operations on files fail. Store/FileStore is `FileStore`;
--                  Store/Keychain is the macOS policy over the trait `KeychainBackend`, and
--                  Store/Keychain/Cooldown the gate of authorization prompts; Store/Tpm is `TpmStore`
--                  over the trait `TpmBackend`, Store/Tpm/Policy the Linux policy;
--                  Store/Passphrase is `PassphraseFileStore`.
--   Redact         `redact_verbatim_bytes` and `redact_fetch_body` of crates/avault-cli/src/main.rs.
--   Agent          the resident agent of crates/avault-cli/src/main.rs. Agent/Grants is `AgentState` with
--                  `purge`, `record_activity`, `get_live_grant`, `publish_grant` and the release of a
--                  grant; its histories are a step relation (Agent/Grants/Steps). Agent/GrantRequest is
--                  the `Grant` branch of `handle_agent_frame_inner`; Agent/GrantRequest/Kept says what
--                  one input of a request must satisfy, and Agent/GrantRequest/Granted what a
--                  request publishes. Agent/MasterCache is
--                  `AgentMasterCache`, with its threads in Agent/MasterCache/Threads. Agent/Admission
--                  is `AgentAdmission`. Agent/Use is `open_with_grant` over `AgentShared`, and
--                  Agent/Use/Secrets the opening of the secrets of a request. Agent/Dispatch is
--                  `handle_agent_frame_inner` with its branches (Agent/Dispatch/Handle), over the
--                  parameter `System`; what leaves the agent is a list of effects.
--   Inject         the file of `deliver inject` in crates/avault-cli/src/main.rs: `render_dotenv`,
--                  `render_json`, `write_shell_quoted` and `secret_utf8`.
--   Fetch          `validate_fetch_input` of crates/avault-cli/src/main.rs and its checks. Fetch/Execute is
--                  `execute_fetch_request`, which joins the credential (Query, or a header), the
--                  request, and the redaction of the response (Redact).
--   Json           the scanner of `key import` in crates/avault-cli/src/main.rs: Json/Strings has
--                  `decode_json_string_bytes` and `json_string_end`, Json/Values `json_value_end`,
--                  Json/Fields `find_json_field_value`; Json/Tree is the text of JSON values, by which
--                  Json/Skip to Json/Object prove that the scanner looks fields up.
--   Wire           streams of bytes with short calls and time-outs in crates/avault-cli/src/main.rs:
--                  Wire/Frame has `read_agent_frame` and `write_agent_frame`, Wire/Helper the pipe to
--                  the helper that runs a command, Wire/Input the readers of standard input.
--   Cli            the command line of crates/avault-cli/src/main.rs: Cli/Options and Cli/Agent have
--                  the parsers of options. Cli/Commands has the sub-commands over the interface
--                  `MasterStore`: Cli/Commands/OneShot opens the secrets of a delivery,
--                  Cli/Commands/Deliver is `deliver_cmd`, Cli/Commands/Key `key_cmd`, and
--                  Cli/Commands/Vault has `seal_cmd`, `pubkey_cmd` and `sign_cmd`. Cli/Commands/Stores
--                  fills the interface with the stores on disk as avault_store chooses them, and
--                  leaves those of the platform open. A command takes
--                  standard input and the state of the store, and what it prints is its result.
--   Query          `build_secret_query_url` of crates/avault-cli/src/main.rs with its encoding. Query/Forms
--                  is an independent decoder of forms.
--   Tests          runs on concrete inputs, toy instances of the parameters that meet their laws, and
--                  each theorem at an input.
--
-- Time: an `Instant` and a `SystemTime` are natural numbers, and every reading of a clock is an
-- argument, so that theorems hold for any readings. A `u64` is a natural number, and where the code
-- checks or saturates, its bound is written out.
--
-- Fuel: the loops of Redact take one unit more than the length of the body, and each turn that goes
-- on drops a byte at least, so that they never run out. White space is trimmed with the length of the
-- text as fuel. A `u64` is printed with 20 digits. The loop over the fields of a JSON object has one
-- unit more than the length of the input, and each round moves on by a byte at least; the readers of
-- standard input have one unit more than their limit, and each round but the last adds a byte. That
-- these suffice is proved. Every other recursion is structural.
--
-- Parameters: other crates are records of functions, `Crypto`, `Hpke`, `Hex`, `KeychainBackend`,
-- `TpmBackend`, `BlobJson`, `UrlCrate`, `Curve`, `Kem`, `System` and `Host`, or a function,
-- `HttpClient`. What the code relies on is a record of laws beside each, which a toy instance meets.
-- Nothing is relied on of `Hex`, `UrlCrate`, `Kem`, `System`, `Host` and `HttpClient`.
--
-- Not modelled: poisoned locks, locked memory, process hardening, peer credentials and Windows ACLs
-- (calls of the operating system); the HTTP client, sockets and child processes (input and output);
-- `main` with its exit status, and the agent's socket and runtime directory.
mod Tests
pub mod Prelude
pub mod Core
pub mod BlindBox
pub mod Redact
pub mod Agent
pub mod Store
pub mod Inject
pub mod Json
pub mod Query
pub mod Fetch
pub mod Wire
pub mod Cli
