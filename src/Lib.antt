-- ===== src/Lib.antt =====
-- ckpool, a mining pool server for Bitcoin Cash, is a set of processes around src/stratifier.c,
-- which talks stratum to the miners, and src/connector.c, which has their sockets. This library models
-- what the stratifier does with work, shares and clients, what the connector does with clients and the
-- lines they send, and the byte routines below in src/libckpool.c, src/cashaddr_simple.c, src/sha2.c
-- and src/bitcoin.c.
--
-- The connector accepts a client, cuts what it sends into lines and hands each to the stratifier, which
-- adds the client to its own table with the first one. Both keep a client as long as a thread refers to
-- it.
--
-- A block template becomes a workbase: generate_coinbase writes the coinbase around the nonces,
-- wb_merkle_bin_txns the merkle branch, and add_base puts the workbase into the table, ages old
-- ones and the shares of them. A user's payout script comes from the text of an address. A share
-- that a client sends goes through parse_submit, which takes a read count on its workbase, calls
-- submission_diff to hash it up the merkle branch, and to hand on the block that it solves, enters its
-- hash into the share table, and calls add_submit, which may set the client another difficulty. What the
-- stratifier answers goes to send_client and the sender's thread of the connector.
--
-- The files:
--   Common        names of the libraries; Boolean tests, lists and words over native numbers, text
--   Hex           __bin2hex, _validhex and _hex2bin of src/libckpool.c; a text is the list of its codes
--   ScriptNumber  ser_number and get_sernumber of src/libckpool.c
--   Target        fulltest of src/libckpool.c
--   Sha256        src/sha2.c and gen_hash of src/libckpool.c. Compress has the compression function,
--                 Fips that of FIPS 180 on its own, Rounds their equality, Stream and Digest the
--                 proof of the updates and the padding
--   Base58        bch_b58decode_strict of src/libckpool.c
--   CashAddr      src/cashaddr_simple.c. A read behind the end of a table is the outcome `fault`
--   Address       bch_classify_address and bch_address_to_script of src/libckpool.c, validate_address
--                 of src/bitcoin.c, looks_like_address of src/stratifier.c
--   Coinbase      generate_coinbase, __generate_userwb and __user_coinb2 of src/stratifier.c. Pays has
--                 the outputs, Users the whole function and what a user mines, Headers the cached header
--   Merkle        the branch of wb_merkle_bin_txns and its use in submission_diff
--   Block         submission_diff, process_block and test_blocksolve of src/stratifier.c, and flip_32 and
--                 flip_80 of src/libckpool.h. Fields has the header, Hashes the double SHA-256, Roots the
--                 tree, Texts the block, Solved the whole, Generated the whole on a workbase of generate_coinbase
--   Work          add_base, get_workbase, put_workbase, new_share, purge_share_hashtable and
--                 age_share_hashtable of src/stratifier.c. Table has the lemmas on the two tables,
--                 Shares the events of a pool, Kept what add_base keeps
--   Submit        parse_submit of src/stratifier.c. Params and Accepted say what a share has to be to
--                 count, Laws what the handler leaves behind; Throttle is the part of it behind `out:`, on the facts
--                 that the rest has found out, with last_share of add_submit
--   Enonce        new_enonce1 and __fill_enonce1data of src/stratifier.c
--   Clients       the clients of src/stratifier.c with their reference counts, and the sessions of those
--                 that have gone. Refs has the threads' sections on a world of references, Tagged and
--                 Leaks what they leave of a dropped client
--   Connector     parse_client_msg of src/connector.c, outside passthrough and redirector mode. Buffer has
--                 the writes, Reads the bounds of the buffer and the fuel, Frames and Lines the messages
--   Connections   the life of the clients of src/connector.c with their reference counts. Reach has
--                 the threads' sections, Accounts where the structures are. An id, of 64 bits, does not wrap
--   Sender        send_sender_send and sender of src/connector.c with the append of send_client, and
--                 set_sendbufsize of src/ckpool.c. Writes has one send, Queue, Order and Appends the lists,
--                 Reach and Rounds the sequences of rounds and calls
--   Vardiff       add_submit of src/stratifier.c, with decay_time, sane_tdiff and tvdiff of
--                 src/libckpool.c. Setters has what else sets the difficulty of a client; Bounds and
--                 Change the new difficulty, Answers add_submit, Reach any sequence of these
-- Each Tests module has runs and examples of the theorems at concrete inputs.
--
-- Buffers are lists of bytes, an unsigned integer of w bits is a number modulo 2 ^ w, a hash table is
-- the list of its entries, and a routine that can fail returns an Option or a
-- result type of its own. Signed numbers that the source never makes negative are natural numbers.
-- The branch loop runs on the 16 entries of merklebin, and none is a write behind them; so is none of
-- submission_diff one behind its 1024 bytes for the coinbase. The loop over
-- the lines in a client's buffer runs on fuel: one more than the bytes there is enough. So does the
-- loop of send_sender_send, on the bytes that are left, since each of its rounds writes one at least.
-- Every other loop is structural.
--
-- Parameters: the double of the pool fee (Coinbase.Fees), generator_checktxn, the hash of the merkle
-- tree; for parse_submit the doubles, the clock, sscanf and submission_diff (Submit.World); for the
-- connector json_loads, what read, write, time and getsockopt give, the bytes that realloc adds and how
-- accept ends; for the difficulty the type of doubles and its operations (Vardiff.Doubles), strstr,
-- strcasestr and strtoll; for a block the test of a hash against the network's difficulty. That write
-- takes no more than it is given, and how a double that is a number of an int64_t
-- becomes an integer, are hypotheses. With the fee,
-- a hypothesis says that it is at most the block's value, which the limit of 50 percent in src/ckpool.c
-- makes so.
--
-- A section of one thread under a lock is one step, and a sequence of steps is an interleaving of the
-- threads. The references that are out are part of the state (Clients.Refs, Connections.Reach).
--
-- A section ends where the lock is dropped: __stratum_add_instance and accept_client are several steps.
--
-- Not modelled: a failure of epoll_ctl in accept_client; logs, JSON messages, the statistics of the pool, sockets, the generator, the proxies, start-up and the
-- copies of other libraries. Remote workbases and the mining nodes of src/stratifier.c are left out as
-- well.
pub mod Common
pub mod Hex
pub mod ScriptNumber
pub mod Target
pub mod Base58
pub mod Block
pub mod Sender
pub mod Vardiff
pub mod CashAddr
pub mod Sha256
pub mod Address
pub mod Coinbase
pub mod Merkle
pub mod Work
pub mod Submit
pub mod Enonce
pub mod Clients
pub mod Connections
pub mod Connector
