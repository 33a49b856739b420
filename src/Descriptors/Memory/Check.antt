-- ===== src/Descriptors/Memory/Check.antt =====
-- Which descriptors `tpce_validate_desc_mem` accepts; the cached entry makes no difference.
use tpce2drv.Prelude.{
  ℕ, zero, suc, ◌+◌, ◌^◌, ◌≤◌, ◌<◌, ◌==◌, leb, if◌then◌else◌, ◌≡◌, ◌≢◌, ◌↔◌, refl, arith, Bool,
  true, false, ◌||◌, List, [], ◌∷◌, Option, none, some, Bool-cases, Option-cases, inl, inr, is_some,
  ◌∙◌, ap, subst, sym, ==_iff,
}
use tpce2drv.Types.{Descriptor, SgEntry, MapInfo}
use tpce2drv.Descriptors.Fill.{tpce_desc_get_read, tpce_desc_get_write}
use tpce2drv.Descriptors.Memory.{
  dma_range_in_sg, find_sg, cached_hit, dma_range_in_sgt, check_descs, tpce_validate_desc_mem,
}

-- The range of `len` bytes from `addr` on lies in one entry of the table.
pub data Inside (addr len : ℕ) : List SgEntry → Type 0 where
  here :
      (sg : SgEntry) (sgs : List SgEntry)
      → sg.dma_address ≤ addr
      → addr + len ≤ sg.dma_address + sg.dma_len
      → sg.dma_address + sg.dma_len < 2 ^ 64
      → Inside addr len (sg ∷ sgs)
  later : (sg : SgEntry) (sgs : List SgEntry) → Inside addr len sgs → Inside addr len (sg ∷ sgs)

find_sg-Inside :
    (sgs : List SgEntry) (addr len : ℕ)
    → is_some (find_sg sgs addr (addr + len)) ≡ true
    → Inside addr len sgs
unfolding find_sg dma_range_in_sg
find_sg-Inside [] addr len h = cc
find_sg-Inside (sg ∷ sgs) addr len h = elim (Bool-cases (dma_range_in_sg sg addr (addr + len))) [
  | inl e ↦ here sg sgs (ground arith) (ground arith) (ground arith)
  | inr e ↦ later sg sgs (find_sg-Inside sgs addr len (rw (e, find_sg) at h))
]

Inside-find_sg :
    (addr len : ℕ) (sgs : List SgEntry)
    → len ≢ 0
    → Inside addr len sgs
    → is_some (find_sg sgs addr (addr + len)) ≡ true
unfolding find_sg dma_range_in_sg
Inside-find_sg addr len _ h (here sg sgs a b c) =
    let hit : dma_range_in_sg sg addr (addr + len) ≡ true = ground arith in rw hit refl
Inside-find_sg addr len _ h (later sg sgs i) =
    elim (Bool-cases (dma_range_in_sg sg addr (addr + len))) [
      | inl e ↦ rw e refl
      | inr e ↦ rw e (Inside-find_sg addr len sgs h i)
    ]

-- What the cached entry holds, the search would find.
abbrev IsCached : List SgEntry → Option SgEntry → Type 0
IsCached sgt cached =
    (start end : ℕ) → cached_hit cached start end ≡ true → is_some (find_sg sgt start end) ≡ true

nothing-IsCached : (sgt : List SgEntry) → IsCached sgt none
unfolding cached_hit
nothing-IsCached sgt start end h = cc

found-IsCached :
    (sgt : List SgEntry) (start end : ℕ) (sg : SgEntry)
    → find_sg sgt start end ≡ some sg
    → IsCached sgt (some sg)
unfolding find_sg cached_hit
found-IsCached [] start end sg e s t h = cc
found-IsCached (x ∷ xs) start end sg e s t h = elim (Bool-cases (dma_range_in_sg x start end)) [
  | inl y ↦
      let same : x ≡ sg = ap (λ o. elim o [ none ↦ x | some z ↦ z ]) (rw (y, find_sg) at e) in
      let hit : dma_range_in_sg x s t ≡ true = rw same h in rw hit refl
  | inr n ↦ elim (Bool-cases (dma_range_in_sg x s t)) [
    | inl y ↦ rw y refl
    | inr m ↦ rw m (found-IsCached xs start end sg (rw (n, find_sg) at e) s t h)
  ]
]

-- The range is not empty, does not wrap around, and lies in one entry.
unfoldable pub IsInside : List SgEntry → ℕ → ℕ → Type 0
IsInside sgt addr len = (len ≢ 0) × (addr + len < 2 ^ 64) × Inside addr len sgt

in_sgt_cases :
    (sgt : List SgEntry) (cached : Option SgEntry) (addr len : ℕ)
    → IsCached sgt cached
    → IsCached sgt (dma_range_in_sgt sgt cached addr len).1
      × (((dma_range_in_sgt sgt cached addr len).0 ≡ true) ↔ IsInside sgt addr len)
unfolding dma_range_in_sgt IsInside
in_sgt_cases sgt cached addr len c = elim (Bool-cases (len == 0 || leb (2 ^ 64) (addr + len))) [
  | inl e ↦ rw e (c, ((λ h. cc), (λ i. absurd (ground (arith, i)))))
  | inr e ↦
      let bounds : (len ≢ 0) × (addr + len < 2 ^ 64) = ground arith in
      elim (Bool-cases (cached_hit cached addr (addr + len))) [
        | inl y ↦
            rw (e, y)
              (
                c,
                (
                  (λ h. (bounds.0, bounds.1, find_sg-Inside sgt addr len (c addr (addr + len) y))),
                  (λ i. refl),
                ),
              )
        | inr n ↦ elim (Option-cases (find_sg sgt addr (addr + len))) [
          | inl z ↦
              rw (e, n, z)
                (c, ((λ h. cc), (λ i. rw z at (Inside-find_sg addr len sgt bounds.0 i.2))))
          | inr (sg, z) ↦
              rw (e, n, z)
                (
                  found-IsCached sgt addr (addr + len) sg z,
                  (
                    (λ h. (bounds.0, bounds.1, find_sg-Inside sgt addr len (rw z refl))),
                    (λ i. refl),
                  ),
                )
        ]
      ]
]

-- The address that the check reads from a descriptor.
abbrev pub checked_addr : Bool → Descriptor → ℕ
checked_addr check_read d = if check_read then tpce_desc_get_read d else tpce_desc_get_write d

true-false : ¬ (true ≡ false)
true-false h = cc

check_descs-IsInside :
    (left i : ℕ) (sgt : List SgEntry) (cached : Option SgEntry) (descs : ℕ → Descriptor)
    (check_read : Bool)
    → IsCached sgt cached
    → (check_descs left i sgt cached descs check_read ≡ none) ↔ (
        (j : ℕ)
        → i ≤ j
        → j < i + left
        → IsInside sgt (checked_addr check_read (descs j)) (descs j).transfer_length)
unfolding check_descs
check_descs-IsInside zero i sgt cached descs check_read c =
    ((λ h j a b. absurd (omega arith)), (λ h. refl))
check_descs-IsInside (suc left) i sgt cached descs check_read c =
    let addr = checked_addr check_read (descs i) in
    let len = (descs i).transfer_length in
    let (c', k) = in_sgt_cases sgt cached addr len c in
    let next =
      check_descs-IsInside left (i + 1) sgt (dma_range_in_sgt sgt cached addr len).1 descs
        check_read c' in
    elim (Bool-cases (dma_range_in_sgt sgt cached addr len).0) [
      | inl e ↦ rw e (
        (λ h j a b. elim (Bool-cases (j == i)) [
          | inl same ↦
              subst
                (λ x. IsInside sgt (checked_addr check_read (descs x)) (descs x).transfer_length)
                (sym ((==_iff j i).0 same)) (k.0 e)
          | inr differs ↦ next.0 h j (ground arith) (omega arith)
        ]),
        (λ f. next.1 λ j a b. f j (omega arith) (omega arith)),
      )
      | inr e ↦
          rw e (
            (λ h. cc),
            (λ f. absurd (true-false (sym (k.1 (f i (omega arith) (omega arith))) ∙ e))),
          )
    ]

-- The check passes exactly if the memory of each descriptor, on the side of the host, is not empty,
-- does not wrap around and lies in one entry of the mapping's table.
pub validate_desc_mem-IsInside :
    (m : MapInfo) (descs : ℕ → Descriptor) (ndesc : ℕ) (check_read : Bool)
    → (tpce_validate_desc_mem (some m) (some descs) ndesc check_read ≡ none) ↔ (
        (j : ℕ)
        → j < ndesc
        → IsInside m.sgt (checked_addr check_read (descs j)) (descs j).transfer_length)
unfolding tpce_validate_desc_mem
validate_desc_mem-IsInside m descs ndesc check_read =
    let r = check_descs-IsInside ndesc 0 m.sgt none descs check_read (nothing-IsCached m.sgt) in
    ((λ h j b. r.0 h j (omega arith) (omega arith)), (λ f. r.1 λ j a b. f j (omega arith)))
