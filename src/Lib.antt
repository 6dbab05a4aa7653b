-- ===== src/Lib.antt =====
-- A model of the library mnet of i2p-lite, an I2P router in C, and theorems about it.
--
-- The modelled parts, from the bottom up:
--   * Base: names that the models share, lists measured by native numbers, bytes and C strings,
--     and bit masks.
--   * Memory (mnet/memory.c): words in buffers, in the order of the host and of the network. The
--     byte order of the host is a parameter.
--   * Encoding (mnet/encoding.c): mnet_base64_encode and mnet_base64_decode with their string
--     forms (encode, decode, encode_str, decode_str), with their ints of 32 bits, and mnet_base32_encode (base32_encode).
--     Digits evaluates the shifts and masks; RoundTrip, Bounds and Base32 hold the theorems.
--   * Numerals: what %d prints and what atoi reads; Numerals/Laws compares them.
--   * Stdio: fread and fwrite of the C library, which count items and not bytes.
--   * Cert (mnet/cert.c): certificates in memory, in streams and in buffers, on top of Memory and
--     Stdio. A certificate's functions mnet_cert_init, mnet_cert_read and so on are init, read,
--     write, read_buffer and the accessors.
--   * Hashmap (mnet/netdb_hashmap.c): the hash map of the network database, netdb_hashmap_get,
--     netdb_hashmap_insert, netdb_hashmap_remove, netdb_hashmap_for_each and netdb_hashmap_free,
--     over an explicit heap (Hashmap/Heap). Hashmap/Chain says which chains a map consists of. The router
--     infos are numbers, and `infos` is what they point to: giving one back that router_info_free reads
--     through NULL for is a fault.
--   * Config (mnet/config.c): the configuration file, mnet_config_load (load), its scanner, and
--     mnet_config_gen (gen).
--   * Transport (mnet/transport.c): the slots of the transport multiplexer, registering (register)
--     and deregistering (deregister) implementations. Transport/Slots has the loops,
--     Transport/Laws the states that are reached, Transport/Undo the way back.
--   * Paths (mnet/util.c): path_join, with the fixed buffer that it prints into.
--   * Directory (mnet/util.c): check_file, _is_file and _is_dir (is_file, is_dir), and going over the
--     entries of a directory, iterate_all_with_filter. Directory/Visits lists the entries that are visited.
--   * Log (mnet/log.c): the log with its filter, __mnet_log (log), and the memory dump. Log/Filter is
--     about a sequence of messages.
--   * Address (mnet/address.c): mnet_addr_process_dict (process_dict) and mnet_addr_port_str (port_str).
--   * Cipher (mnet/chacha.c): i2p_tunnel_v2_encrypt and i2p_tunnel_v2_decrypt (encrypt, decrypt), with
--     the calls of libsodium as a parameter. Cipher/Laws takes a message apart.
--   * Bencode (mnet/bencode.c): bencoded objects, bencode_obj_dict_set (dict_set) and
--     bencode_obj_clone (clone); the writer bencode_write_file (write_file) in Bencode/Write and
--     the reader bencode_read_file (read_file) in Bencode/Read. Encode is the bencoding as a
--     function, which Written compares the writer with; Ends and Calm are about the end of reading. A chain
--     that dict_set has tied into a loop is a constructor of its own (ring).
--     Short is about the length of the keys that are read, Mismatch about a string that has been
--     written and is read again.
--   * Sodium: the calls of libsodium and their documented laws, as a parameter of what follows;
--     Sodium/Sample is an instance for the examples.
--   * Eddsa (mnet/eddsa.c, mnet/hash.c, mnet/crypto.c): signing, verifying and hashing.
--   * Identity (mnet/identity.c): identities, mnet_identity_read and so on, over Cert, Encoding and
--     Eddsa; Identity/Keys has the private keys, which are saved with Bencode.
--   * Iwp (mnet/iwp.c): the configuration of the transport protocol.
--   * RouterInfo (mnet/ri.c): router infos, which are loaded with Bencode and have an Identity and
--     an Iwp configuration. Data that have been freed are a constructor of their own.
--   * Netdb (mnet/netdb.c): the network database, over Hashmap and RouterInfo: load_all and
--     flush_to_disk, the paths of entries (Paths) and the skiplist directories, which Netdb/Skiplist is about.
--   * Router (mnet/router.c): router_context_load (load), over Identity/Keys, RouterInfo and Netdb.
--     Router/Events has router_context_new (new), the timer and the bootstrap (ensure_min_peers).
--   * Main (mrouter.c): the main program. Main is about its options and its configuration, over Config,
--     Log and Numerals, Main/Setup about its files, and Main/Run starts the router.
--   * Tunnels (mnet/tunnel_context.c): the hash map of tunnels by their ids (get, put, remove);
--     Tunnels/Context has the context, the pool (mnet/tunnel_pool.c) and a tunnel (mnet/tunnel_impl.c).
--   * Benchmark (test/bench_crypto.c): the rounds of the benchmark, over Cipher and Eddsa.
--   * NetdbTest (test/test_netdb.c): the counts over the entries of the database, over Netdb.
--   * Release: the functions of several files that give back memory.
--
-- Numbers are natural numbers, and what wraps round in the source is cut by % 2 ^ w. Accesses
-- outside of an object are results of their own: none, fault, crash, crashed, underrun, over_read
-- or outside.
-- The loops over chains and over the lines of a file run on fuel. More fuel than nodes in the
-- chain is enough, and as much as the bytes of the file; the theorems assume no less, and say that
-- the run returns.
-- The reader runs on fuel as well: twice the bytes of the input and two more are enough. Where a call
-- of bencode_obj_dict_set goes round a tied chain for ever, the outcome of the reader is looped.
-- What is said never to happen is said for any fuel.
-- What the C library, jemalloc and the other files give is a parameter: the fresh address of an
-- allocation, the hash of a router info, the time and the data directory.
--
-- Not modelled: the lines that the programs log, but for the filter and the form of a line; getopt, the
-- event loop, the file system and the cipher, whose results or documented laws are parameters;
-- and contrib, which holds copies of other projects.
pub mod Address
pub mod Base
pub mod Encoding
pub mod Log
pub mod Main
pub mod Memory
pub mod Stdio
pub mod Cert
pub mod Hashmap
pub mod Config
pub mod Transport
pub mod Tunnels
pub mod Numerals
pub mod Bencode
pub mod Paths
pub mod Sodium
pub mod Directory
pub mod Eddsa
pub mod Identity
pub mod Iwp
pub mod RouterInfo
pub mod Netdb
pub mod Benchmark
pub mod NetdbTest
pub mod Release
pub mod Router
pub mod Cipher
