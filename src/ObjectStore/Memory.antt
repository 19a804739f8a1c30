-- ===== src/ObjectStore/Memory.antt =====
-- os/mem_store.c, `cceph_mem_store_get_funcs`: the store in memory as an object store.
use ceph_in_c.Map.{RbTree}
use ceph_in_c.MemStore.{MemStore, submit_tran}
use ceph_in_c.MemStore.View
use ceph_in_c.MemStore.View.{view}
use ceph_in_c.MemStore.Submit.{submit_tran-Done}
use ceph_in_c.ObjectStore.{OsFuncs}
use ceph_in_c.ObjectStore.Contract.{Implements}

abbrev pub get_funcs : RbTree → OsFuncs MemStore
get_funcs rb = record { submit_tran = submit_tran rb }

abbrev pub mem_store-Implements : (rb : RbTree) → Implements rb (get_funcs rb)
mem_store-Implements rb = record {
  IsValid = View.IsValid rb;
  view = view;
  submits = λ t a v tv w p.
      let d = submit_tran-Done rb t a v tv w p in
      record {
        store = d.store;
        rest = d.rest;
        returned = d.returned;
        valid = d.valid;
        seen = d.seen;
        plenty = d.plenty;
      };
}
