-- ===== src/Cdup/Vm.antt =====
-- cdup/src/vm.py: the virtual machine.
pub mod Memory
mod Examples
