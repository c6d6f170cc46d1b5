-- ===== src/Lib.antt =====
-- Secure Cloud Storage: the client and the server of a file store behind an encrypted channel, and
-- the message formats that they share.
--
-- The client and the server run an authentication that leaves them with a session key, and then
-- exchange messages. Each is an object of a class in src/messages that is serialized into a buffer,
-- sealed with AES-GCM in an envelope (Generic) whose associated data is a message counter, and sent
-- over a socket. Server::run takes one request at a time and calls its handler; the handlers read
-- and write the user's directory through FileManager, count every message with incrementCounter,
-- and return a code.
--
-- Where the code is modelled:
--   Memory       byte buffers, memcpy, strncpy, C strings and uint32_t in both byte orders
--   Config       src/utils/Config.h
--   Codes        src/messages/CodesManager.h
--   Messages/*   the classes of src/messages, one module each: the record has the members, and
--                serialize, deserialize and the size functions keep their names
--   Files        the directory as std::filesystem and the streams show it; Files/Manager, Names and
--                Listing are src/utils/FileManager.cpp
--   World        the members of Server or Client, the peer's bytes, the storage, and the computations
--                over them: a step ends with a value, a `return` code, a thrown code or undefined
--                behaviour
--   Channel      SocketManager::send and receive, AesGcm and Generic::encrypt and decrypt
--   Steps        what the requests of both ends have in common: incrementCounter, the one-byte
--                messages, and the chunks of a file (Steps/Pieces)
--   Credentials  the wrappers of src/crypto for keys, signatures and certificates
--   Server/Authentication  Server::authenticationRequest
--   Server/Handlers  the request handlers of src/modules/Server.cpp
--   Server/Session   the dispatch and the loop of Server::run
--   Client/Authentication  Client::authenticationRequest
--   Client/Requests  the requests of src/modules/Client.cpp
--   Client/Session   the menu's operations and Client::run
-- Server/Keeps has one rule for each way to build a computation; a relation between the world before
-- and after is proved of a handler by these rules. The other modules of Server are named for what
-- they prove; Transfers sets the client against the server, and Tests applies the theorems to concrete inputs.
--
-- OpenSSL and the system are the record Platform: the cipher, the random bytes, the contents of new
-- buffers, and which of the calls fail. IsLawful states what the documentation of AES-GCM promises.
-- A buffer that is written keeps its previous contents where nothing is written, so no theorem rests
-- on a fresh buffer being zero. Bytes are numbers below 256 by convention, which nothing here needs;
-- uint32_t counters wrap around at 2^32, and a size is reduced where it is put into a uint32_t.
-- The length of a message is narrowed to int where it is encrypted and decrypted, and the number of
-- chunks is computed in double precision as the code does, with the rounding to 53 bits written out.
--
-- The loop of Server::run is a recursion on fuel. Each round that goes on takes a whole packet from
-- the stream, so more fuel than there are bytes to come is enough.
--
-- The two authentications take the records Platform and Credentials; a key is a byte string,
-- whatever stands behind the pointer. Where the code uses memory that is not its own, a buffer that
-- was deleted or a length that was never set, the computation is undefined. The handlers take the
-- authentication that a used-up counter would start as the argument `authenticate`: theorems say
-- what they suppose of it. A transfer is stated for two ends with one platform.
--
-- Not modelled: the programs' main functions, the socket's set-up, the menu's text, the progress
-- bars and Generic::print, which are input and output; the certificate store's construction and
-- OpenSSL itself. Wiping and freeing plaintext buffers is left out where the code has parsed them
-- before, and an allocation never fails.
pub mod Common
pub mod Memory
pub mod Config
pub mod Codes
pub mod Messages
pub mod Files
pub mod World
pub mod Channel
pub mod Credentials
pub mod Steps
pub mod Server
pub mod Client
pub mod Transfers
pub mod Tests
