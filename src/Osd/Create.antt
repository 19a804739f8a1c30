-- ===== src/Osd/Create.antt =====
-- osd/osd_create.c on any store that implements the specification.
use ceph_in_c.Base.{
  ℕ, ◌≡◌, refl, ◌∙◌, ap, Option, none, some, [], length, arith, inl, inr, Option-cases,
}
use ceph_in_c.Base.Int.{pos}
use ceph_in_c.Base.Order.{CString, string_ord}
use ceph_in_c.Base.Errno.{Errno, ok, err_coll_already_exist, returns}
use ceph_in_c.Base.Alloc.{Alloc, Plenty}
use ceph_in_c.Encode.{bytes_of}
use ceph_in_c.Map.{RbTree}
use ceph_in_c.Map.Laws.{update, update-update}
use ceph_in_c.OsTypes.{coll_id_ord, coll_id_cmp, MapValue}
use ceph_in_c.OsTypes.Update.{set_or_delete}
use ceph_in_c.Tran.{coll_create}
use ceph_in_c.MemStore.Spec.{Coll, Store, empty_coll, set_coll, apply}
use ceph_in_c.ObjectStore.{OsFuncs, set_coll_map_key}
use ceph_in_c.ObjectStore.Contract.{Served, Served-along, Implements}
use ceph_in_c.ObjectStore.Single.{single-Served}
use ceph_in_c.ObjectStore.Keys.{coll_key_spec, set_map_key-Served}
use ceph_in_c.Osd.Start.{osd_create, osd_id_key, max_epoch_key}

-- The collection of the metadata of an OSD.
abbrev pub meta_coll : ℕ → Coll
meta_coll osd_id = record empty_coll {
  attrs =
      update (update (λ j. none) osd_id_key (some (bytes_of 4 osd_id))) max_epoch_key
        (some (bytes_of 4 0));
}

-- What creating an OSD does: nothing where the store has the collection 0, which is then an error.
abbrev pub create_spec : Store → ℕ → Errno × Store
create_spec s osd_id = elim (s (pos 0)) [
  | none ↦ (ok, set_coll s (pos 0) (meta_coll osd_id))
  | some c ↦ (err_coll_already_exist, s)
]

-- Setting a key of the collection that stands for the metadata.
set_key_lem :
    (s : Store) (c : Coll) (key : CString) (value : MapValue)
    → coll_key_spec (set_coll s (pos 0) c) (pos 0) key value
      ≡ (ok, set_coll s (pos 0) (record c { attrs = set_or_delete c.attrs key value }))
unfolding coll_id_cmp
set_key_lem s c key value =
    let new : Option Coll = some (record c { attrs = set_or_delete c.attrs key value }) in
    ap (λ (t : Store). (ok, t)) (update-update s (pos 0) (some c) new)

module _ (rb : RbTree) {S : Type 0} (funcs : OsFuncs S) (impl : Implements rb funcs) where
  open impl use {IsValid, view}

  -- A key that is set in a store that stands for one with the collection of the metadata.
  set_key-Served :
      {os : S} (s : Store) (c : Coll) (key : CString) (value : MapValue) (a : Alloc)
      → IsValid os
      → view os ≡ set_coll s (pos 0) c
      → Plenty a
      → Served IsValid view
          (ok, set_coll s (pos 0) (record c { attrs = set_or_delete c.attrs key value }))
          (set_coll_map_key rb funcs os (pos 0) key value (pos (length value)) a)
  set_key-Served {os} s c key value a v e p =
      Served-along
        (ap (λ (t : Store). coll_key_spec t (pos 0) key value) e ∙ set_key_lem s c key value) refl
        (set_map_key-Served rb funcs impl {os = os} 0 [] key value a v p).0

  -- Creating an OSD in a valid store that implements the specification, where no allocation fails:
  -- where the store has no collection 0 it returns CCEPH_OK, and the store has the collection, without
  -- objects, whose map holds the number of the OSD and epoch 0 as four bytes each; otherwise it
  -- returns CCEPH_ERR_COLL_ALREADY_EXIST and changes nothing. No other collection changes.
  pub osd_create-Served :
      {os : S} (osd_id : ℕ) (a : Alloc)
      → IsValid os
      → Plenty a
      → Served IsValid view (create_spec (view os) osd_id) (osd_create rb funcs os osd_id a)
  unfolding osd_create bytes_of
  osd_create-Served {os} osd_id a v p =
      let made = (single-Served rb funcs impl {os = os} 0 0 0 [] [] 0 a v (omega arith) p).0 in
      elim (Option-cases (view os (pos 0))) [
        | inr (c, there) ↦
            let code : (apply (view os) (coll_create (pos 0))).0 ≡ err_coll_already_exist =
              rw (apply, there) refl in
            let first =
              made.returned ∙ ap (λ (e : Errno). returns (e, made.store, made.rest)) code in
            Served-along (rw (apply, create_spec, there) refl) (rw (osd_create, first) refl) made
        | inl absent ↦
            let s : Store = view os in
            let seen₁ : view made.store ≡ set_coll s (pos 0) empty_coll =
              made.seen ∙ rw (apply, absent) refl in
            let one =
              set_key-Served {os = made.store} s empty_coll osd_id_key (bytes_of 4 osd_id) made.rest
                made.valid seen₁ made.plenty in
            let c₁ : Coll = record empty_coll {
              attrs = set_or_delete empty_coll.attrs osd_id_key (bytes_of 4 osd_id);
            } in
            let two =
              set_key-Served {os = one.store} s c₁ max_epoch_key (bytes_of 4 0) one.rest one.valid
                one.seen one.plenty in
            let code : (apply (view os) (coll_create (pos 0))).0 ≡ ok = rw (apply, absent) refl in
            let first =
              made.returned ∙ ap (λ (e : Errno). returns (e, made.store, made.rest)) code in
            Served-along (rw (create_spec, absent) refl) (rw (osd_create, first, one.returned) refl)
              two
      ]
