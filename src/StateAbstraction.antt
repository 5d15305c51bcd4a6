-- ===== src/StateAbstraction.antt =====
-- contracts/lib/StateAbstraction.sol, the library that holds the state of a secured contract, with
-- the checks of contracts/utils/SharedValidation.sol that it calls.
pub mod Enums
pub mod Revert
pub mod Sets
pub mod Types
pub mod Environment
pub mod Roles
pub mod MetaTx
pub mod Transactions
pub mod LifeCycle
pub mod Advances
pub mod History
mod Tests
