-- ===== src/Cosmwasm.antt =====
-- What the contracts take from cosmwasm_std and cw_storage_plus, neither of which is part of the
-- repository: arithmetic as a parameter, the storage as data, and messages as values.
pub mod Math
pub mod Uint
pub mod Success
pub mod Std
pub mod Map
