-- ===== src/Subr/Types.antt =====
-- Object types as directory entry types and as vnode types, and unix ids in uuids.
use linux_hammer.Base.{
  ℕ, ◌+◌, ◌*◌, ◌/◌, ◌%◌, ◌^◌, ◌<◌, ◌≡◌, ◌≢◌, refl, ◌==◌, if◌then◌else◌, List, [], ◌∷◌, arith,
}

-- The kernel's `DT_xxx`, of which only the names are used.
pub data DType : Type 0 where
  dt_unknown dt_dir dt_reg dt_fifo dt_chr dt_blk dt_lnk dt_sock : DType

-- `enum vtype`
pub data VType : Type 0 where
  vnon vreg vdir vblk vchr vlnk vsock vfifo vbad : VType

-- `HAMMER2_OBJTYPE_xxx`
abbrev pub objtype_unknown : ℕ
objtype_unknown = 0

abbrev pub objtype_directory : ℕ
objtype_directory = 1

abbrev pub objtype_regfile : ℕ
objtype_regfile = 2

abbrev pub objtype_fifo : ℕ
objtype_fifo = 4

abbrev pub objtype_cdev : ℕ
objtype_cdev = 5

abbrev pub objtype_bdev : ℕ
objtype_bdev = 6

abbrev pub objtype_softlink : ℕ
objtype_softlink = 7

abbrev pub objtype_socket : ℕ
objtype_socket = 9

abbrev pub objtype_whiteout : ℕ
objtype_whiteout = 10

unfoldable pub hammer2_get_dtype : ℕ → DType
hammer2_get_dtype t =
    if t == objtype_unknown
    then dt_unknown
    else if t == objtype_directory
    then dt_dir
    else if t == objtype_regfile
    then dt_reg
    else if t == objtype_fifo
    then dt_fifo
    else if t == objtype_cdev
    then dt_chr
    else if t == objtype_bdev
    then dt_blk
    else if t == objtype_softlink
    then dt_lnk
    else if t == objtype_socket
    then dt_sock
    else if t == objtype_whiteout
    then dt_unknown
    else dt_unknown

unfoldable pub hammer2_get_vtype : ℕ → VType
hammer2_get_vtype t =
    if t == objtype_unknown
    then vbad
    else if t == objtype_directory
    then vdir
    else if t == objtype_regfile
    then vreg
    else if t == objtype_fifo
    then vfifo
    else if t == objtype_cdev
    then vchr
    else if t == objtype_bdev
    then vblk
    else if t == objtype_softlink
    then vlnk
    else if t == objtype_socket
    then vsock
    else if t == objtype_whiteout
    then vbad
    else vbad

unfoldable pub hammer2_get_obj_type : VType → ℕ
hammer2_get_obj_type vdir = objtype_directory
hammer2_get_obj_type vreg = objtype_regfile
hammer2_get_obj_type vfifo = objtype_fifo
hammer2_get_obj_type vsock = objtype_socket
hammer2_get_obj_type vchr = objtype_cdev
hammer2_get_obj_type vblk = objtype_bdev
hammer2_get_obj_type vlnk = objtype_softlink
hammer2_get_obj_type _ = objtype_unknown

-- The directory entry type that stands for a vnode type.
abbrev pub dtype_of : VType → DType
dtype_of vdir = dt_dir
dtype_of vreg = dt_reg
dtype_of vfifo = dt_fifo
dtype_of vsock = dt_sock
dtype_of vchr = dt_chr
dtype_of vblk = dt_blk
dtype_of vlnk = dt_lnk
dtype_of _ = dt_unknown

-- The three conversions of types agree. For every value of the object type, the directory entry type
-- is the one that stands for its vnode type; and an object type whose vnode type is not `VBAD` is
-- the object type of that vnode type.
obj_types_agree :
    (t : ℕ)
    → (hammer2_get_dtype t ≡ dtype_of (hammer2_get_vtype t))
      × (hammer2_get_vtype t ≢ vbad → hammer2_get_obj_type (hammer2_get_vtype t) ≡ t)
unfolding hammer2_get_dtype hammer2_get_vtype hammer2_get_obj_type
obj_types_agree t = (ground arith, ground arith)

-- A vnode type other than `VNON` and `VBAD` is stored as an object type that reads back as itself.
get_vtype-get_obj_type :
    (v : VType) → v ≢ vnon → v ≢ vbad → hammer2_get_vtype (hammer2_get_obj_type v) ≡ v
unfolding hammer2_get_vtype hammer2_get_obj_type
get_vtype-get_obj_type vdir h k = refl
get_vtype-get_obj_type vnon h k = absurd (h refl)
get_vtype-get_obj_type vbad h k = absurd (k refl)
get_vtype-get_obj_type v h k = refl

-- The six bytes of `node` of a `struct uuid`; the fields before it, ten bytes, are zeroed with it.
pub record Uuid : Type 0 where
  pub head : List ℕ
  pub node0 : ℕ
  pub node1 : ℕ
  pub node2 : ℕ
  pub node3 : ℕ
  pub node4 : ℕ
  pub node5 : ℕ

-- A load of an uint32_t at `node[2]`, on a little-endian machine.
unfoldable pub hammer2_to_unix_xid : Uuid → ℕ
hammer2_to_unix_xid u = u.node2 + 2 ^ 8 * u.node3 + 2 ^ 16 * u.node4 + 2 ^ 24 * u.node5

unfoldable pub hammer2_guid_to_uuid : ℕ → Uuid
hammer2_guid_to_uuid guid = record {
  head = 0 ∷ 0 ∷ 0 ∷ 0 ∷ 0 ∷ 0 ∷ 0 ∷ 0 ∷ 0 ∷ 0 ∷ [];
  node0 = 0;
  node1 = 0;
  node2 = guid % 2 ^ 8;
  node3 = guid / 2 ^ 8 % 2 ^ 8;
  node4 = guid / 2 ^ 16 % 2 ^ 8;
  node5 = guid / 2 ^ 24 % 2 ^ 8;
}

-- A unix id of 32 bits is read back from the uuid made of it.
to_unix_xid-guid_to_uuid :
    (guid : ℕ) → guid < 2 ^ 32 → hammer2_to_unix_xid (hammer2_guid_to_uuid guid) ≡ guid
unfolding hammer2_to_unix_xid hammer2_guid_to_uuid
to_unix_xid-guid_to_uuid guid lt = omega arith
