-- ===== src/Lib.antt =====
-- The server of a platform that agrees on secret keys with its clients over TCP.
--
-- Parts. A client connects to the server of include/net; the two ends do a handshake and then
-- exchange messages, each a header and a body. The messages carry protobuf requests and responses.
-- A request brings a client's name, its public RSA key and a signature of that key; the server
-- keeps the key in a file, checks the signature, draws an AES key, and sends it back encrypted.
-- src/main.cpp sets up the folders and the server's keys and then hands messages to the server,
-- which works on them on four threads. A table in shared memory and a database are written for the
-- secret keys, and a thread pool of its own; the server does not use them yet.
--
-- Which file models what (paths from the repository's root):
--   Net/Message.antt          include/net/net_msg.hpp: Message, its operators << and >> as push, pop
--   Net/TsQueue.antt          include/net/net_tsqueue.hpp: TSQueue; wait is in TsQueue/Wakeup
--   Net/Scramble.antt         include/net/net_connection.hpp: Connection::Scramble
--   Net/Connection.antt       the same file: Connection, one function per method and per handler
--   Net/ServerInterface.antt  include/net/net_client_server.hpp: ServerInterface; Interleaving has
--                             Update access by access, while messages arrive
--   Net/ClientInterface.antt  the same file: ClientInterface
--   Proto/Wire.antt           src/Message.pb.cc: _InternalParse, _InternalSerialize, Clear; Copying
--                             has ByteSizeLong, MergeFrom, CopyFrom and InternalSwap
--   Proto/Msg.antt            include/msg.h and include/factory.h
--   Crypto/Rsa.antt           include/openssl/mine_rsa.hpp: MyRSA
--   Crypto/Hash.antt          include/openssl/mine_hash.hpp: Hash
--   Crypto/Base64.antt        include/openssl/mine_base64.hpp: ToBase64, FromBase64
--   Platform/Server.antt      src/Server.cc and include/Server.h: the handlers; AesKey, Body and
--                             World hold GetAESRandStr, the two loops over a message, and the state
--   Platform/Server/Tasks.antt     calls of Work one after another; Keys has what they do to files
--   Platform/Server/Threads.antt   SeckeyAgree, one access to the world at a time, on many threads;
--                             Isolation, Progress and Races have what the threads come to
--   Platform/Server/EndToEnd.antt  the parts put together, from a client's Send to the answer;
--                             Exchange and Received follow the answer back to the
--                             client, and Session begins with the accept
--   Platform/BaseShm.antt     include/base_shm.h: BaseShm
--   Platform/SeckeyShm.antt   include/seckey_shm.hpp, and ShmNodeSeckey of include/struct_seckey.h
--   Platform/SeckeyMysql.antt include/mysql_seckey.hpp and src/mysql_seckey.cc; Tables has the rows
--                             of include/struct_seckey.h, Json the interface of JsonCpp
--   Platform/Main.antt        src/main.cpp
--   ThreadPool.antt           include/ThreadPool.hpp and src/ThreadPool.cc
--   Base.antt, Tests.antt     shared helpers; runs on small inputs
--
-- How the code is translated. A method is a function from the state before it to the state after
-- it. What it asks of asio is recorded in the connection (writing, reading, posted), and a handler
-- is a function of the error code; sequences of completions are step relations. A shared pointer is
-- a handle into a heap, with an Option for the null pointer. Undefined behaviour is none in the
-- network part and undefined in a Result, where exceptions are throws. Sizes of 32 and 64 bits wrap
-- around by u32 and u64. Bytes are natural numbers. Threads are program counters: a schedule says
-- which one goes on in Platform/Server/Threads, a step relation in ThreadPool, TsQueue/Wakeup and
-- ServerInterface/Interleaving.
--
-- Outside the repository. asio, OpenSSL, the protobuf runtime, spdlog, JsonCpp, MySQL's X DevAPI,
-- the file system's permissions and the random numbers are parameters (OpenSsl with its Filter,
-- Runtime, WireSizes, Env, Os, Json, Mysqlx, Interprocess). Their laws are IsKeyPair, IsUndone,
-- SetsSize, IsSizeOf and IsWireFormat, and are hypotheses of the theorems that need them. A run
-- assumes that asio completes the reads of a socket in order, and its writes in order.
--
-- Fuel. The parse loop has as many rounds as the input has bytes, and its result tells a loop that
-- has not ended apart from a parse that failed. That many rounds are enough because reading a tag
-- takes at least a byte and nothing is put back (Proto/Wire/Fuel.antt). The other loops recur on
-- what they consume; the endless loops of main and of the threads are sequences of events or steps.
--
-- Not modelled: the descriptor tables and arenas of src/Message.pb.cc; log lines and other output.
-- A path is the string of its bytes: two strings that name one file, by a .. in a client's name or a
-- zero byte, are two files of the model.
pub mod Base
pub mod Net
pub mod Proto
pub mod Crypto
pub mod ThreadPool
pub mod Platform
pub mod Tests
