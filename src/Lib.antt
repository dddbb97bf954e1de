-- ===== src/Lib.antt =====
-- The core of a blockchain node in Go: transactions, the trie and the Merkle roots over them,
-- the pool of unspent outputs, the mempool, the stake pool, gas, blocks, the chain and its forks,
-- validators with their selection and slashing, accounts, multi-signature wallets and consensus.
--
-- How the parts interact: a transaction is checked by the mempool against the outputs of the
-- UTXO pool (with its gas and its signature), waits there by its fee, is put into a block, whose
-- trie names it, and the block changes the UTXO pool. The stake pool says who may validate: a
-- validator is selected by its stake, mines the block, and the others' answers decide on it;
-- violations are taken from its stake. A block is appended to the chain and stored, and a longer
-- or heavier chain of a peer can replace the last blocks. Deltas, snapshots and syncs bring the
-- pools of two nodes together. Consensus collects the votes of the validators on a proposed block.
--
-- Files and code:
--   Common         Go's maps, byte strings, stable sorting and integers, and the outcome of a call
--                  that can panic; float64 and the standard library's cryptography are records that
--                  the definitions take.
--   Tx             blockchain/transaction.go (the types, ValidateGas, Hash, VerifySignature),
--                  gas_conversion.go, and of crypto.go, wallet.go and multi_sig_utils.go what these call.
--   Trie           blockchain/patricia_trie.go: Insert is insert_tx, Search is search_trie,
--                  GetAllTransactions is get_all, Len is count_tx, GenerateRootHash is
--                  generate_root_hash, which also returns the trie with its caches filled.
--   Merkle         the loops of CalculateMerkleRoot (blockchain/utxo.go) and calculateMerkleRoot
--                  (blockchain/block.go). They take fuel: the length of the list is enough.
--   Storage        the database and JSON as the UTXO pool uses them.
--   Utxo           blockchain/utxo.go: the pool as a record (Utxo), functions on maps of outputs
--                  (Utxo/Sets) and the methods (Utxo/Calls: AddUTXO is add_utxo, and so on). Of the
--                  pool's node only the account manager is used: Utxo/Owners is what AddUTXO and
--                  ProcessBlockTransactions do to the accounts.
--   Mempool        blockchain/mempool.go, a pool as a record, each method under its own name; what
--                  nodes exchange is in Mempool/Sync.
--   StakePool      blockchain/stake_pool.go, the methods on whole numbers in StakePool and those with
--                  float64 in StakePool/Calls; merge_stakes is the loop of SyncWithPeer.
--   Gas            blockchain/gas/model.go, calculator.go, estimator.go and tracker.go;
--                  track_transaction is the tracker's AddTransaction.
--   Chain          blockchain/block.go and blockchain.go: blocks and hashes in Chain, ResolveFork and
--                  what it calls in Chain/Forks, MarshalJSON, UnmarshalJSON and Serialize in
--                  Chain/Json, appending, finding and dropping blocks in Chain/Ledger,
--                  checkpoints in Chain/Checkpoints, MineBlock and ValidateBlock in Chain/Mining,
--                  rewards in Chain/Rewards. Chain/State is blockchain/state.go. The loop over nonces
--                  (mine_loop) takes fuel: one more than the distance to a nonce with a valid hash.
--   Validators     blockchain/validator.go; Validators/Selection is validator_selection.go and
--                  Validators/Slashing is slashing.go.
--   Accounts       blockchain/account_state.go, the manager and its cache.
--   MultiSig       blockchain/multi_sig_wallet.go and ExecuteMultiSigTransaction of blockchain.go.
--   Payments       the constructors of blockchain/transaction.go and SelectUTXOs.
--   Rewards        blockchain/rewards.go; the packages math and time are a record.
--   Consensus      blockchain/consensus.go; votes are counted by has_reached_consensus.
--   Examples       inputs on which the theorems apply.
-- The files below a part hold its theorems, but for those named above.
--
-- Numbers: uint64 arithmetic is written with its wrapping (add64, mul64); int and int64 are
-- unbounded. float64 is any type with the operations of `Float64`; the order of the fees and of
-- the stakes uses the laws that IEEE 754 gives for `<`, the latter also that an integer converts
-- to a number, and theorems on scores take single comparisons. A Go map is a list of
-- entries in the order in which the run ranges over it. A mutex guards a whole call, so that calls
-- follow one another. Time is an argument, and so are random numbers and what peers answer.
-- The database and encoding/json are records that the definitions take; theorems that read
-- back what was written name the documented law they use.
--
-- Not modelled: the network (p2p.go, sync, bootnode.go), RPC and commands, which are I/O; the
-- wallets on disk; NewBlock, and MineBlock and AddBlock of Blockchain; Merkle proofs; store.go;
-- the messages of validators (validator_protocol.go); the state chunks, reorganisations and
-- clones of the UTXO pool; the adjustment of gas prices outside state.go; SubmitVote and
-- IsConsensusReached of consensus.go and SelectValidator of validator_selection.go, which lock a
-- mutex that they hold and never return (the choice that SelectValidator makes is
-- weighted_selection). The database is a parameter, since it is a third-party store, and so is
-- ecdsa.Verify; under the nil key of the address BLOCKCHAIN it is one that can panic.
pub mod Common
pub mod Tx
pub mod Trie
pub mod Merkle
pub mod Storage
pub mod Utxo
pub mod Mempool
pub mod StakePool
pub mod Gas
pub mod Consensus
pub mod Chain
pub mod Validators
pub mod Accounts
pub mod MultiSig
pub mod Payments
pub mod Rewards
pub mod Examples
