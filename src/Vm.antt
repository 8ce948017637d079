-- ===== src/Vm.antt =====
-- Virtual memory: the simulated machine's translation, the paging of the kernel, and what an address
-- space does with both.
pub mod Machine
pub mod Paging
pub mod Handler
pub mod Space
pub mod Boot
mod Tests
