-- ===== src/Descriptors/Fill/Control/Described.antt =====
-- linux/dma_descriptors.c: the passes after the first leave what a descriptor moves.
use tpce2drv.Prelude.{
  ℕ, zero, suc, ◌+◌, ◌==◌, if◌then◌else◌, ◌≡◌, ◌≢◌, refl, List, [], ◌∷◌, Bool-cases, inl, inr, ◌⊎◌,
  ◌∙◌, ap, ap₂, sym, ◌-◌, Bool, true, false, update, ==_iff,
}
use tpce2drv.Types.{Descriptor, TransferParams, SgEntry, mode_default, mode_stream}
use tpce2drv.Descriptors.Fill.{tpce_desc_get_write, tpce_desc_get_read}
use tpce2drv.Descriptors.Fill.Fields.{describe, held}
use tpce2drv.Descriptors.Fill.Control.{
  for_each, add_control, early_done_flag, complete_irq, fill_control_flags,
  fill_control_flags_default, fill_control_flags_stream, stream_flags, other_fields,
  fill_other_fields,
}
use tpce2drv.Descriptors.Fill.Control.Marks.{for_each_lem}

describe-if :
    (p : TransferParams) (b : Bool) (x y : Descriptor)
    → describe p x ≡ describe p y
    → describe p (if b then x else y) ≡ describe p y
describe-if p true x y h = h
describe-if p false x y h = refl

describe-for_each :
    (p : TransferParams) (n i : ℕ) (f : ℕ → Descriptor → Descriptor) (buf : ℕ → Descriptor) (j : ℕ)
    → describe p (f j (buf j)) ≡ describe p (buf j)
    → describe p (for_each n i f buf j) ≡ describe p (buf j)
describe-for_each p n i f buf j h =
    rw (for_each_lem n i f buf j) (describe-if p _ (f j (buf j)) (buf j) h)

pub describe-other_fields :
    (p : TransferParams) (buf : ℕ → Descriptor) (num j : ℕ)
    → describe p (fill_other_fields p buf num j) ≡ describe p (buf j)
unfolding fill_other_fields describe tpce_desc_get_write tpce_desc_get_read
describe-other_fields p buf num j = describe-for_each p num 0 (other_fields p) buf j refl

-- Only the control word differs.
describe-add_control :
    (p : TransferParams) (flag : ℕ) (d : Descriptor)
    → describe p (add_control flag d) ≡ describe p d
unfolding describe tpce_desc_get_write tpce_desc_get_read
describe-add_control p flag d = refl

describe-stream_flags :
    (p : TransferParams) (j : ℕ) (d : Descriptor) → describe p (stream_flags p j d) ≡ describe p d
unfolding stream_flags
describe-stream_flags p j d =
    describe-add_control p _ _ ∙ describe-if p _ _ d (describe-add_control p _ d)

describe-update :
    (p : TransferParams) (f : ℕ → Descriptor) (k j : ℕ) (d : Descriptor)
    → describe p d ≡ describe p (f k)
    → describe p (update f k d j) ≡ describe p (f j)
describe-update p f k j d h = elim (Bool-cases (j == k)) [
  | inl e ↦ let same = (==_iff j k).0 e in rw e (h ∙ ap (λ n. describe p (f n)) (sym same))
  | inr e ↦ rw e refl
]

pub describe-control_flags :
    (p : TransferParams) (buf : ℕ → Descriptor) (num j : ℕ)
    → describe p (fill_control_flags p buf num j) ≡ describe p (buf j)
unfolding fill_control_flags fill_control_flags_default fill_control_flags_stream
describe-control_flags p buf num j = elim (Bool-cases (p.transfer_mode == mode_default)) [
  | inl e ↦
      let flag = early_done_flag p in
      let early = for_each (num - 1) 0 (λ i d. add_control flag d) buf in
      rw e (
        describe-update p early (num - 1) j (add_control complete_irq (early (num - 1)))
          (describe-add_control p complete_irq _)
        ∙ describe-for_each p (num - 1) 0 (λ i d. add_control flag d) buf j
            (describe-add_control p flag (buf j)))
  | inr e ↦ elim (Bool-cases (p.transfer_mode == mode_stream)) [
    | inl z ↦
        rw (e, z)
          (describe-for_each p num 0 (stream_flags p) buf j (describe-stream_flags p j (buf j)))
    | inr z ↦ rw (e, z) refl
  ]
]

pub held-describe :
    (p : TransferParams) (f g : ℕ → Descriptor) (i n : ℕ)
    → ((j : ℕ) → describe p (f j) ≡ describe p (g j))
    → held p f i n ≡ held p g i n
held-describe p f g i zero h = refl
held-describe p f g i (suc n) h = ap₂ ◌∷◌ (h i) (held-describe p f g (i + 1) n h)

pub Entry-cases : (ss : List SgEntry) → (ss ≡ []) ⊎ (ss ≢ [])
Entry-cases [] = inl refl
Entry-cases (s ∷ ss) = inr (λ e. cc)
