-- ===== src/Lib.antt =====
-- A model of the indexer of inscriptions and of bel-20 tokens (and of the drc-20, prc-20 and ltc-20
-- tokens of the sister chains), with the theorems that make its core correct.
--
-- The program reads the blocks of a chain, follows inscriptions from output to output, reads token
-- messages out of them and keeps, in RocksDB, the registered tokens, the balances of accounts and the
-- transfers that wait to be spent. What is modelled, by part and file:
--
-- * The token engine, src/tokens/parser.rs. Tokens/Types has the data (TokenCache, TokenAction,
--   HistoryTokenAction, DeployProtoDB and the like, field by field), Tokens/Process the loop
--   process_token_actions: one function for each kind of action, with the early returns of the code,
--   and a panic as `none`. HashMap and BTreeMap are the association lists of Map. Tokens/Measure,
--   Tokens/Sound and Tokens/Steps carry the invariant through each action, Tokens/Ledger through a
--   block; Tokens/Terms and Tokens/Spent are about what never changes.
-- * Token messages, src/tokens/proto.rs with try_parse and parse_token_action of
--   src/tokens/parser.rs: Tokens/Proto, Tokens/Parse; proved of in Tokens/Accept and Tokens/Queue.
--   The decoding of JSON is a parameter, whose documented behaviour is a hypothesis: decimals are
--   validated by bel_20_validate. Tokens/Load is what is loaded from the storage for a block, which
--   is a pair of functions there, and Tokens/Needs that it is enough.
-- * The registry of holders, src/tokens/holders.rs: Tokens/Holders, with a BTreeSet as a list without
--   repetition; Tokens/Sets and Tokens/Registry show that it is an index of the accounts.
-- * Keys and values of the tables, src/db/structs.rs: Db, one file for a type, over the bytes of
--   Bytes. The consensus encoding of outpoints is the parameter Db/Consensus.
-- * Blocks, packages/new-blk-parser/src/blockchain: Blk/Reader has the readers of bytes of
--   parser/reader.rs, which thread what is left of the input, Blk/VarUint, Blk/Tx, Blk/ReadTx and
--   Blk/Block the data of proto with to_bytes and the read functions, Blk/Merkle the root of
--   utils/mod.rs, Blk/CheckPoint the chain of checkpoint.rs; Blk/TxTrip, Blk/BlockTrip and Blk/Chain
--   are proofs. The integers of byteorder, the witnesses of bellscoin, double SHA-256 and the
--   evaluation of scripts are parameters.
-- * Inscriptions, src/inscriptions: Inscriptions/Searcher and Inscriptions/Offsets are searcher.rs,
--   Inscriptions/Push the pushes of a script, Inscriptions/Pointer the pointer and Inscriptions/Parse
--   the parser of pieces (structs.rs), Inscriptions/Envelope and Inscriptions/Parsed the envelopes of
--   envelope.rs with the fields of Inscriptions/Tag (tag.rs), Inscriptions/Leaked is leaked.rs;
--   Inscriptions/Template, Inscriptions/Moves, Inscriptions/Create and Inscriptions/Block are parser.rs,
--   whose loops over transactions, inputs, offsets and templates are recursions on their lists, with
--   the state of parse_block passed on; Inscriptions/Prevouts is process_prevouts of utils.rs, and
--   Inscriptions/PrevoutsKnown the proof about it. Inscriptions/EnvelopeTrip, Inscriptions/Fields,
--   Inscriptions/Pieces and Inscriptions/LeakedPlace are proofs, as are Inscriptions/Keyed, then
--   Inscriptions/SafeMoves, Inscriptions/SafeTemplate, Inscriptions/SafeCreate, Inscriptions/SafeBlock
--   and Inscriptions/Fits on the parts of parse_block in the order that they call each other, with the
--   keys that each writes at. The instructions and tapscripts of bellscoin, SHA-256 and UTF-8 are
--   parameters.
-- * Reorganisations, src/reorg.rs and src/inscriptions/process_data.rs, over the tables of
--   Storage/Table (packages/rocksdb-wrapper/src/storage.rs): a table is the function from its keys to
--   its values. Reorg/Tables are the tables of src/db/mod.rs, in the groups that entries write to;
--   Reorg/Entry has the entries and proceed, Reorg/Cache the cache and restore, Reorg/Write the writes
--   of a block with the entries that they push, Reorg/Handle and Reorg/Index the loop of
--   src/inscriptions/mod.rs over blocks. Storage/Undo, Reorg/Undo, Reorg/UndoOrdinals, Reorg/Written,
--   Reorg/Restore and Reorg/Back lead to the theorem that a restore takes the blocks back;
--   Reorg/Bounds and Reorg/Follows are about the cache and the loop.
-- * The server, src/server and src/rest/types.rs: Server/Events and Server/Rest are the values that
--   stand for an event where it is sent and where it is served, Server/Proof is the proof of history
--   of src/server/mod.rs, with SHA-256 and serde_json as parameters. Indexer/Block is
--   handle_block of src/inscriptions/indexer.rs, with the rows of history of Indexer/Rows and the cache
--   that Indexer/Load loads; what RocksDB has in a range of keys is a parameter. Indexer/Ids is a proof
--   about the rows.
--
-- Numbers: a u32 or u64 counter is a natural number whose increments wrap, written `% 2 ^ w`; a hash
-- is the number of its bytes. Fixed128 of the crate nintypes is a parameter of Env, which asks for
-- exact sums of up to twice 2^64 - 1 whole tokens and exact differences that are not negative.
-- IsSound counts the room that is left in the 64-bit counters of transfers, one for each action.
-- The only loops on fuel are those of the decoders, where each turn takes a byte at least and the
-- fuel is the number of bytes, and merkle_root, where a turn halves the hashes.
--
-- Not modelled: the handlers of the REST server, the channels of the event server, configuration, logging, RocksDB itself, the node's client
-- and block files, which are input and output.
pub mod Prelude
pub mod Map
pub mod Env
pub mod Bytes
pub mod Storage
pub mod Tokens
pub mod Db
pub mod Blk
pub mod Inscriptions
pub mod Reorg
pub mod Server
pub mod Indexer
