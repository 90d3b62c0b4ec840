-- ===== src/Fidl/Tables.antt =====
-- The coding tables of pkg/fidl/include/lib/fidl/internal.h and the constants of
-- arch/x64/sysroot/include/zircon/fidl.h. A `const fidl_type*` is an address, so that tables may
-- refer to themselves.
use fuchsia_sdk.Base.{ℕ, ◌+◌, ◌-◌, ◌*◌, ◌/◌, ◌%◌, ◌^◌, Bool, Option, List}

-- `uint32_t` arithmetic wraps.
abbrev pub u32 : ℕ → ℕ
u32 n = n % 2 ^ 32

-- `FIDL_ALLOC_PRESENT` and `FIDL_ALLOC_ABSENT`, a `uintptr_t`.
abbrev pub alloc_present : ℕ
alloc_present = 2 ^ 64 - 1

abbrev pub alloc_absent : ℕ
alloc_absent = 0

-- `FIDL_HANDLE_PRESENT` and `FIDL_HANDLE_ABSENT`, a `zx_handle_t`.
abbrev pub handle_present : ℕ
handle_present = 2 ^ 32 - 1

abbrev pub handle_absent : ℕ
handle_absent = 0

-- `FIDL_RECURSION_DEPTH`.
abbrev pub recursion_depth : ℕ
recursion_depth = 32

-- `FidlAlign`: the next multiple of FIDL_ALIGNMENT, in 64 bits.
abbrev pub fidl_align : ℕ → ℕ
fidl_align offset = (offset + 7) / 8 * 8

pub record FidlField : Type 0 where
  pub kind : ℕ
  pub offset : ℕ

pub record FidlTableField : Type 0 where
  pub kind : ℕ
  pub ordinal : ℕ

pub record FidlCodedStruct : Type 0 where
  pub fields : List FidlField
  pub size : ℕ

pub record FidlCodedTable : Type 0 where
  pub fields : List FidlTableField

-- A member with nothing to be decoded is the null pointer, `none`.
pub record FidlCodedUnion : Type 0 where
  pub members : List (Option ℕ)
  pub data_offset : ℕ
  pub size : ℕ

pub record FidlCodedArray : Type 0 where
  pub element : ℕ
  pub array_size : ℕ
  pub element_size : ℕ

pub record FidlCodedString : Type 0 where
  pub max_size : ℕ
  pub nullable : Bool

pub record FidlCodedHandle : Type 0 where
  pub handle_subtype : ℕ
  pub nullable : Bool

pub record FidlCodedVector : Type 0 where
  pub element : Option ℕ
  pub max_count : ℕ
  pub element_size : ℕ
  pub nullable : Bool

-- `fidl_type`, a tagged union.
pub data FidlType : Type 0 where
  coded_struct : FidlCodedStruct → FidlType
  coded_struct_pointer : FidlCodedStruct → FidlType
  coded_table : FidlCodedTable → FidlType
  coded_table_pointer : FidlCodedTable → FidlType
  coded_union : FidlCodedUnion → FidlType
  coded_union_pointer : FidlCodedUnion → FidlType
  coded_array : FidlCodedArray → FidlType
  coded_string : FidlCodedString → FidlType
  coded_handle : FidlCodedHandle → FidlType
  coded_vector : FidlCodedVector → FidlType

-- What stands at each address.
abbrev pub FidlTypes : Type 0
FidlTypes = ℕ → FidlType

-- `TypeSize` of pkg/fidl/buffer_walker.h.
unfoldable pub type_size : FidlType → ℕ
type_size (coded_struct_pointer s) = 8
type_size (coded_table_pointer t) = 8
type_size (coded_union_pointer u) = 8
type_size (coded_handle h) = 4
type_size (coded_struct s) = s.size
type_size (coded_table t) = 16
type_size (coded_union u) = u.size
type_size (coded_string s) = 16
type_size (coded_array a) = a.array_size
type_size (coded_vector v) = 16
