-- ===== src/Links.antt =====
-- Doubly linked chains of addresses, which src/panda/owning_list.h and
-- src/panda/intrusive_chain.h keep in the `next` and `prev` of their nodes. 0 is the null pointer.
pub mod Seg
pub mod Relink
