-- ===== src/SparseState.antt =====
-- research/state_machine.py: the state machine for sparse research signals. The float64 values are
-- only copied, tested for finiteness and compared with 0.0, so their type is a parameter with these
-- tests. A matrix is the list of its rows beside the number of its columns.
pub mod Column
pub mod Matrix
pub mod Result
pub mod Laws
pub mod Samples
