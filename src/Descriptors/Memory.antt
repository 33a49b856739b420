-- ===== src/Descriptors/Memory.antt =====
-- linux/dma_descriptors.c: `tpce_validate_desc_mem`, the check that descriptors only reach memory
-- of the mapping. `check_add_overflow` is the kernel's macro for a sum that fits its type.
pub mod Check
pub mod Generated
use tpce2drv.Prelude.{
  ℕ, zero, suc, ◌+◌, ◌^◌, ◌==◌, leb, ltb, if◌then◌else◌, Bool, true, false, not, ◌&&◌, ◌||◌, List,
  [], ◌∷◌, Option, none, some,
}
use tpce2drv.Types.{Descriptor, SgEntry, MapInfo}
use tpce2drv.Descriptors.Params.{DmaErr, null_ptr, invalid_desc}
use tpce2drv.Descriptors.Fill.{tpce_desc_get_read, tpce_desc_get_write}

pub dma_range_in_sg : SgEntry → ℕ → ℕ → Bool
dma_range_in_sg sg start end =
    not (sg.dma_len == 0)
    && ltb (sg.dma_address + sg.dma_len) (2 ^ 64)
    && leb sg.dma_address start
    && leb end (sg.dma_address + sg.dma_len)

-- The loop over the table: the entry that holds the range, if there is one.
pub find_sg : List SgEntry → ℕ → ℕ → Option SgEntry
find_sg [] start end = none
find_sg (sg ∷ sgs) start end =
    if dma_range_in_sg sg start end then some sg else find_sg sgs start end

pub cached_hit : Option SgEntry → ℕ → ℕ → Bool
cached_hit none start end = false
cached_hit (some sg) start end = dma_range_in_sg sg start end

-- The result and the new cached entry.
pub dma_range_in_sgt : List SgEntry → Option SgEntry → ℕ → ℕ → Bool × Option SgEntry
unfolding cached_hit
dma_range_in_sgt sgt cached addr len =
    if len == 0 || leb (2 ^ 64) (addr + len)
    then (false, cached)
    else if cached_hit cached addr (addr + len)
    then (true, cached)
    else elim (find_sg sgt addr (addr + len)) [ none ↦ (false, cached) | some sg ↦ (true, some sg) ]

-- `none` is the return value 0.
pub check_descs : ℕ → ℕ → List SgEntry → Option SgEntry → (ℕ → Descriptor) → Bool → Option DmaErr
check_descs zero i sgt cached descs check_read = none
check_descs (suc left) i sgt cached descs check_read =
    let d = descs i in
    let addr = if check_read then tpce_desc_get_read d else tpce_desc_get_write d in
    let (inside, cached') = dma_range_in_sgt sgt cached addr d.transfer_length in
    let rest = check_descs left (i + 1) sgt cached' descs check_read in
    if inside then rest else some invalid_desc

pub tpce_validate_desc_mem : Option MapInfo → Option (ℕ → Descriptor) → ℕ → Bool → Option DmaErr
tpce_validate_desc_mem none descs ndesc check_read = some null_ptr
tpce_validate_desc_mem (some m) none ndesc check_read = some null_ptr
tpce_validate_desc_mem (some m) (some descs) ndesc check_read =
    check_descs ndesc 0 m.sgt none descs check_read
