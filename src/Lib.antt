-- ===== src/Lib.antt =====
-- A model of the core of cardano-infrastructure: the block indexer with its queue of unconfirmed
-- blocks and its bbolt database, the retry loop, the address formats of the wallet, the selection of
-- the outputs that a transaction spends, the transaction builder that runs cardano-cli, and the
-- transactions that are made and sent with it.
--
-- Parts, and the code that each models:
--  - Base: lists, byte strings, results and Boolean tests that the other parts share.
--  - Common/CircularQueue: common/circular_queue.go. A queue is its slots, count, size and first
--    position. Invariant holds the bounds of these, Refine relates every operation to a bounded list.
--  - Common/Retry: common/retry.go. What the handler returns and whether the context is done in
--    each round are functions of the round. The loop is a recursion on the rounds left, that is on the
--    configured count.
--  - Indexer/Data: indexer/data.go and SlotNumberToKey of indexer/utils.go. The records, the errors, and
--    the keys of the database with their orders.
--  - Indexer/Utils: indexer/utils.go. The outputs and inputs of interest, and the order of outputs.
--  - Indexer/Database: indexer/database.go. The interface BlockIndexerDb, a record of operations and of
--    the laws that the indexer relies on. A transaction writer is the list of the calls made on it.
--  - Indexer/BlockIndexer: indexer/block_indexer.go over any such database. RollForward, RollBackward and
--    Reset are functions from an indexer to its next state, the error and what was given to the
--    handler of confirmed blocks. Finality speaks of sequences of such calls.
--  - Indexer/Runner: execute of indexer/block_indexer_runner.go over any handler of items. What ends the
--    wait behind each failed attempt is a list, on which the loop is a recursion.
--  - Indexer/Bbolt: indexer/db/bbolt. The store go.etcd.io/bbolt and encoding/json are the records Bolt and
--    Json of Bbolt/External, with their documented laws; Bbolt/Instance makes it a BlockIndexerDb.
--  - Wallet/Address: wallet/address.go and wallet/address_types.go. cbor, crc32 and blake2b are
--    parameters. Wallet/Address/Pointer has the variable-length numbers of stake pointers.
--  - Wallet/Data: tokens, unspent outputs and sums of wallet/data.go and wallet/utils.go.
--  - Wallet/AddressText: NewCardanoAddressFromString, with base58 and bech32 as parameters.
--  - Wallet/PolicyScript: wallet/policy_script.go. Counts relates GetCount to the signatures that can
--    satisfy a script, Canonical is about the order of keys.
--  - Wallet/TxInputs and Wallet/SumMaps: wallet/transaction_extended.go and the sums of wallet/utils.go:
--    GetUTXOsForAmount, the difference and sum of two sums, and the change output.
--  - Wallet/Texts: what the code uses of strconv and strings.
--  - Wallet/CommandHelper: wallet/command_helper.go. The calls of os and os/exec are the record Os over a
--    state of the world; a computation gives a result and the next state. Wallet/CliUtils is
--    wallet/cli_utils.go over it.
--  - Wallet/TxBuilder: wallet/transaction.go. The builder is a record and its operations; Apply makes the
--    command line of build-raw with the files it names, Run the commands around it, with the JSON of
--    wallet/txwitness.go and the padding of keys of wallet/wallet_utils.go.
--  - Wallet/Network and Wallet/Tokens: wallet/network_type.go, the names of tokens in wallet/data.go, and
--    GetTokensFromSumMap.
--  - Common/Utils: common/utils.go, with a fuel of one round for each byte.
--  - SendTx/UtxoHelper: sendtx/utxo_helper.go, the selection of outputs over the slice it reorders.
--  - SendTx/Data and SendTx/Metadata: sendtx/data.go, sendtx/metadata.go and sendtx/utils.go.
--  - SendTx/TxSender: sendtx/tx_sender.go. Create has the population of a builder and createTx, Bridge the
--    requests around them. A provider is what each attempt of a call on it returns, and the
--    attempts go through the loop of Common/Retry.
--
-- The block indexer uses the queue, the helpers and, through the interface, the database; the
-- selection uses the sums of the wallet. The sender selects outputs, fills a builder, asks it for the
-- fee, settles the change and builds; each of these is the function of its own part.
--
-- Numbers are natural numbers. An integer of 32 or 64 bits has its wrap-around written out where the
-- code can reach it. Loops are recursions on their lists or on the rounds left. variable_loop runs on
-- fuel: ten groups of seven bits are enough for 64 bits.
--
-- A limit on inputs and a required number of signatures are natural numbers: a negative one does what
-- 0 does. The texts of errors are left out or shortened.
--
-- Not modelled: mutexes, under which each operation of the indexer runs as a whole, and logging;
-- opening and closing the database; the texts that addresses are written to; bech32, which is a copy of
-- another library, and base58; the generation of keys and the signatures; the channels of the indexer's
-- runner, where sending a fatal error may wait for its reader; the chain synchronisation; the network clients, the secret stores, and the entry point.
pub mod Base
pub mod Common
pub mod Indexer
pub mod Wallet
pub mod SendTx
