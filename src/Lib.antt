-- ===== src/Lib.antt =====
-- GuardianSafe: a model of the GuardianSafe protocol's library, and of the scripts that test the
-- protocol against a running chain.
--
-- The protocol is a set of contracts (contracts/) in which a critical operation is requested by one
-- role, waits for a time lock or for a signed meta-transaction, and is executed by another role. The
-- scripts under scripts/sanity/ drive it: a runner chooses the suites, a suite is an object with a
-- node, wallets, roles and counts, and its steps read roles and pending transactions from the
-- contract, wait for time locks, sign meta-transactions and send transactions.
--
-- How code becomes a definition. A method that may throw and that changes the node or the object is
-- a `Script S A`: a function of the state S to a result and the new state, where the changes before
-- an error stay (Script.antt). `await` is the sequence of two scripts, try/catch is `try_catch`. What
-- the scripts print is left out, and so are pauses in real time but for those that the model needs.
-- Numbers are natural numbers; a JavaScript value that may be a number, a text or undefined is a
-- `Value`. The library web3, the node, the contract and keccak256 are parameters, records of functions
-- (`Web3`, `Contract`, `Node`, `VaultNode`, `WorkflowNode`, `TokenContract`); what a theorem needs of
-- them is among its hypotheses.
--
-- The files, and the code they model:
--   Prelude, Text, Script, Accounts: names, lists, texts, scripts and wallets that all parts share.
--     Upper and lower case are those of ASCII, which is what addresses and role names use.
--   Eip712: scripts/sanity/utils/eip712-signing.js, the class EIP712Signer. Domain has
--     getDomainSeparator and getTypeHash, Signer the message hash, signing, verification and
--     transaction data; Signing is about them.
--   SecureOwnable: scripts/sanity/secure-ownable/base-test.js, the class BaseSecureOwnableTest.
--     Session is the object `this` and its calls and sends, Roles its role discovery, Pending the
--     transactions to be cleared, Permissions the validation of role permissions, Timelock the
--     waits, Names the five tables of names, Run the counts of a run.
--   OwnableSuites: the classes OwnershipTransferTests, BroadcasterUpdateTests,
--     RecoveryUpdateTests, TimelockPeriodTests and EIP712SigningTests of scripts/sanity/secure-
--     ownable/, in ownership-transfer-tests.js, broadcaster-update-tests.js, recovery-update-
--     tests.js, timelock-period-tests.js and eip712-signing-tests.js. Requests has the requests
--     and the identifiers of their transactions, MetaTx the signing and sending of a meta-
--     transaction and the wait for a release time, Wallets the searches for wallets; Ownership,
--     Broadcaster, Recovery, TimelockPeriod and Signing have the steps, over SecureOwnable and
--     Eip712. Counted, Awaited and Confirmed are about the steps.
--   StateAbstraction: contracts/lib/StateAbstraction.sol, the library that holds the state of a
--     contract, with the checks of contracts/utils/SharedValidation.sol. Enums and Types are its
--     enumerations and structs, Revert a call that returns or reverts, Roles the roles, their wallets
--     and permissions, MetaTx the verification of a meta-transaction, Transactions the requests,
--     approvals, cancellations, executions and payments. LifeCycle is the abstract specification, a
--     step relation on the status of a transaction; Advances composes calls that respect it, and
--     History is sequences of calls, each with its own sender and time. The enumerable sets of
--     OpenZeppelin (Sets, with an implementation in Sets/Distinct), the calls of other contracts,
--     keccak256, ecrecover and the decoding of ABI data (Environment) are parameters. What other
--     contracts do to the state is restricted by `IsClosed`: they may call back, but change the state
--     by operations that keep it sound only.
--   Runner: Suites is scripts/sanity/secure-ownable/run-tests.js, Standalone is
--     scripts/sanity/simple-vault/run-tests.js, whose code scripts/sanity/simple-rwa20/run-tests.js
--     repeats, with the runTests of scripts/sanity/simple-vault/base-test.js. A suite is an argument.
--   Vault: scripts/sanity/simple-vault/base-test.js, the class BaseSimpleVaultTest. Session is the
--     object, its calls, transactions and transfers of ether, Roles the loading of the roles,
--     Timelock the waits, of which the answer compares the final time with the target.
--   Rwa20: scripts/sanity/simple-rwa20/simple-rwa20-eip712-signer.js, the class
--     SimpleRWA20EIP712Signer, which signs with the methods of EIP712Signer.
--   Workflow: scripts/sanity/secure-ownable/workflow/base-workflow-test.js, the class
--     BaseWorkflowTest. Ownership, Broadcaster and Single hold the workflows that Catalog lists,
--     Analysis and Actions what is computed from them, Cache the two caches in front of them,
--     Execution role discovery, runs of tests and the wait for a receipt.
--   WorkflowAnalysis: scripts/sanity/secure-ownable/workflow/workflow-analysis-tests.js, the class
--     WorkflowAnalysisTests: Scores has three of its scores, Consistency three of its checks, Suite
--     its tests of security and completeness.
--
-- Bounds. A request is looked for in 5 attempts, which `poll_ownership_request` and its like count
-- down. The loops of advanceBlockchainTime make at most min(30, 2 * seconds) attempts, as in the
-- code, and `mine_until` and `mine_rounds` count them down. The loop of waitForTransaction has no
-- bound but the clock: `wait_loop` runs on fuel of timeout / 1000 + 2 rounds, enough because each
-- round pauses for a second, and a run that used up its fuel would be `none`.
--
-- Not modelled: loading of ABIs, artifacts and environment variables, and what only prints; the
-- other test suites, the deployment scripts and migrations; of StateAbstraction.sol the set-up, the
-- change of the time lock, the removal of roles and the views that return lists; the contracts
-- that use the library; the SDK under sdk/.
pub mod Prelude
pub mod Script
pub mod Text
pub mod Accounts
pub mod Eip712
pub mod SecureOwnable
pub mod StateAbstraction
pub mod OwnableSuites
pub mod Runner
pub mod Workflow
pub mod Vault
pub mod Rwa20
pub mod WorkflowAnalysis
