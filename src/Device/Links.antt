-- ===== src/Device/Links.antt =====
-- The links between channels and mappings: what each channel notes of its mapping, and what a step
-- that touches no link leaves alone.
use tpce2drv.Prelude.{
  ℕ, ◌==◌, if◌then◌else◌, ◌≡◌, refl, sym, ap, ◌∙◌, Bool, true, false, not, Option, is_some,
  Bool-cases, inl, inr, ==_iff,
}
use tpce2drv.Device.{Tpce, DmaInfo, ChannelState, idle, illegal, with_info, Result}

-- The state of a channel and its mapping
abbrev pub Link : Type 0
Link = ChannelState × Option ℕ

abbrev pub link_of : DmaInfo → Link
link_of info = (info.state, info.map_info)

abbrev pub links : Tpce → ℕ → Link
links t j = link_of (t.dma_info j)

-- A free channel notes no mapping, and the state is one of the source's.
abbrev pub fits : ChannelState → Option ℕ → Bool
fits idle o = not (is_some o)
fits (illegal n) o = false
fits _ o = true

-- No mapping changes, no channel notes another one, and no channel becomes free or illegal.
pub record SameLinks (t t' : Tpce) : Type 0 where
  pub same_mappings : t'.dma_mappings ≡ t.dma_mappings
  pub same_map_info : (j : ℕ) → (t'.dma_info j).map_info ≡ (t.dma_info j).map_info
  pub still_fits :
      (j : ℕ) (o : Option ℕ)
      → fits (t.dma_info j).state o ≡ true
      → fits (t'.dma_info j).state o ≡ true

pub SameLinks-trans : (a b c : Tpce) → SameLinks a b → SameLinks b c → SameLinks a c
SameLinks-trans a b c f g = record {
  same_mappings = g.same_mappings ∙ f.same_mappings;
  same_map_info = λ j. g.same_map_info j ∙ f.same_map_info j;
  still_fits = λ j o h. g.still_fits j o (f.still_fits j o h);
}

-- A step that changes neither channels nor mappings
pub SameLinks-refl :
    (t t' : Tpce) → t'.dma_info ≡ t.dma_info → t'.dma_mappings ≡ t.dma_mappings → SameLinks t t'
SameLinks-refl t t' e f = record {
  same_mappings = f;
  same_map_info = λ j. ap (λ g. (g j).map_info) e;
  still_fits = λ j o h. ap (λ g. fits (g j).state o) e ∙ h;
}

-- A step that changes one channel, but not its mapping
pub with_info-SameLinks :
    (t : Tpce) (ch : ℕ) (info : DmaInfo)
    → info.map_info ≡ (t.dma_info ch).map_info
    → ((o : Option ℕ) → fits (t.dma_info ch).state o ≡ true → fits info.state o ≡ true)
    → SameLinks t (with_info t ch info)
with_info-SameLinks t ch info e f = record {
  same_mappings = refl;
  same_map_info = λ j. elim (Bool-cases (j == ch)) [
    | inl y ↦
        let here : j ≡ ch = (==_iff j ch).0 y in
        rw y (e ∙ ap (λ k. (t.dma_info k).map_info) (sym here))
    | inr n ↦ rw n refl
  ];
  still_fits = λ j o h. elim (Bool-cases (j == ch)) [
    | inl y ↦
        let here : j ≡ ch = (==_iff j ch).0 y in
        rw y (f o (ap (λ k. fits (t.dma_info k).state o) (sym here) ∙ h))
    | inr n ↦ rw n h
  ];
}

-- The same of a step with a result
pub record Passes (t : Tpce) (x : Tpce × Result ℕ) : Type 0 where
  pub passed : SameLinks t x.0

pub Passes-if :
    (t : Tpce) (b : Bool) (x y : Tpce × Result ℕ)
    → Passes t x
    → Passes t y
    → Passes t (if b then x else y)
Passes-if t true x y h k = h
Passes-if t false x y h k = k

pub Passes-then : (t : Tpce) (x y : Tpce × Result ℕ) → Passes t x → Passes x.0 y → Passes t y
Passes-then t x y f g = record { passed = SameLinks-trans t x.0 y.0 f.passed g.passed }

pub Passes-same : (t : Tpce) (r : Result ℕ) → Passes t (t, r)
Passes-same t r = record { passed = SameLinks-refl t t refl refl }

-- The same after a step that touches none of them
pub with_info-after :
    (t t1 : Tpce) (ch : ℕ) (info : DmaInfo)
    → t1.dma_info ≡ t.dma_info
    → t1.dma_mappings ≡ t.dma_mappings
    → info.map_info ≡ (t1.dma_info ch).map_info
    → ((o : Option ℕ) → fits (t1.dma_info ch).state o ≡ true → fits info.state o ≡ true)
    → SameLinks t (with_info t1 ch info)
with_info-after t t1 ch info e f g h =
    SameLinks-trans t t1 (with_info t1 ch info) (SameLinks-refl t t1 e f)
      (with_info-SameLinks t1 ch info g h)
