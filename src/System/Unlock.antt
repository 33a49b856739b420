-- ===== src/System/Unlock.antt =====
-- The links between channels and mappings, when a mapping is made and given back.
use tpce2drv.Prelude.{
  ℕ, ◌<◌, ◌==◌, leb, if◌then◌else◌, ◌≡◌, ◌≢◌, refl, sym, arith, ap, ◌∙◌, true, none, some,
  Bool-cases, inl, inr, ==_iff, ℤ, pos, negsuc, pos_part,
}
use tpce2drv.Types.{MapInfo}
use tpce2drv.Device.{Tpce, idle, mapping_is_busy}
use tpce2drv.Device.Channel.{is_busy-pos, is_busy-negsuc}
use tpce2drv.Device.Links.{fits}
use tpce2drv.Dma.Stop.{Polls, tpce_dma_abort}
use tpce2drv.Dma.Stop.Laws.{abort-SameLinks}
use tpce2drv.Buffers.{mapping}
use tpce2drv.Request.{reset_dma_info, tpce_safe_dma_unmap}
use tpce2drv.Request.Laws.{reset-idle}
use tpce2drv.Request.Reset.{reset-SameBut, abort-SameBut}
use tpce2drv.Request.Ioctl.{Session, keep_mapping}
use tpce2drv.System.Links.{IsLinked, SameLinks-IsLinked, reset-IsLinked, pos_injective, active_of}

-- No channel notes a mapping.
abbrev pub NotNoted : Tpce → ℕ → Type 0
NotNoted t id = (j : ℕ) → (t.dma_info j).map_info ≢ some id

-- A mapping that is not in use is noted by no channel.
not_busy-NotNoted :
    (t : Tpce) (id : ℕ) (m : MapInfo)
    → t.dma_mappings id ≡ some m
    → ((j : ℕ) → j < 3 → m.active_channel ≢ pos j)
    → IsLinked t
    → NotNoted t id
not_busy-NotNoted t id m f unused l j e =
    let (b, (m1, g, a)) = l.link j id e in unused j b (active_of m m1 (sym f ∙ g) ∙ a)

-- After the reset of the channel that it notes, neither is any other.
reset-NotNoted :
    (t : Tpce) (id c : ℕ) (m : MapInfo) (polls : Polls)
    → t.dma_mappings id ≡ some m
    → m.active_channel ≡ pos c
    → IsLinked t
    → NotNoted (reset_dma_info (tpce_dma_abort t c polls) c polls) id
reset-NotNoted t id c m polls f a l j e =
    let t1 = tpce_dma_abort t c polls in
    let t2 = reset_dma_info t1 c polls in
    let l1 = SameLinks-IsLinked t t1 (abort-SameLinks t c polls) l in
    let l2 = reset-IsLinked t1 c polls l1 in
    elim (Bool-cases (j == c)) [
      | inl y ↦
          let same : j ≡ c = (==_iff j c).0 y in
          let free : (t2.dma_info j).state ≡ idle =
            ap (λ k. (t2.dma_info k).state) same ∙ reset-idle t1 c polls in
          let none_noted : fits idle (some id) ≡ true =
            sym (ap (λ s. fits s (some id)) free)
            ∙ ap (fits (t2.dma_info j).state) (sym e)
            ∙ l2.fit j in
          absurd (cc none_noted)
      | inr n ↦
          let ne : j ≢ c = ground (arith, n) in
          let before =
            ap (λ i. i.map_info) (sym ((abort-SameBut t c polls).others j ne))
            ∙ ap (λ i. i.map_info) (sym ((reset-SameBut t1 c polls).others j ne))
            ∙ e in
          let (b, (m1, g, x)) = l.link j id before in
          ne (pos_injective j c (sym x ∙ sym (active_of m m1 (sym f ∙ g)) ∙ a))
    ]

-- The first half of the release of a mapping
Released : Tpce → ℕ → MapInfo → Polls → ℤ → Type 0
Released t id m polls a =
    let c = pos_part a in
    let t1 = if mapping_is_busy m then reset_dma_info (tpce_dma_abort t c polls) c polls else t in
    IsLinked t1 × NotNoted t1 id

Released-from :
    (t : Tpce) (id : ℕ) (m : MapInfo) (polls : Polls) (a : ℤ)
    → t.dma_mappings id ≡ some m
    → m.active_channel ≡ a
    → IsLinked t
    → Released t id m polls a
unfolding Released
Released-from t id m polls (pos c) f e l = elim (Bool-cases (leb c 3)) [
  | inl y ↦ rw (is_busy-pos m c e ∙ y) (
    reset-IsLinked (tpce_dma_abort t c polls) c polls
        (SameLinks-IsLinked t _ (abort-SameLinks t c polls) l),
    reset-NotNoted t id c m polls f e l,
  )
  | inr n ↦ rw (is_busy-pos m c e ∙ n) (
    l,
    not_busy-NotNoted t id m f (λ j b h. absurd (ground (arith, n, pos_injective j c (sym h ∙ e))))
        l,
  )
]
Released-from t id m polls (negsuc n) f e l =
    rw (is_busy-negsuc m n e) (l, not_busy-NotNoted t id m f (λ j b h. absurd (cc (e, h))) l)

pub unlock-IsLinked :
    (t : Tpce) (id : ℕ) (m : MapInfo) (polls : Polls)
    → t.dma_mappings id ≡ some m
    → IsLinked t
    → IsLinked (tpce_safe_dma_unmap t id m polls) × NotNoted (tpce_safe_dma_unmap t id m polls) id
unfolding tpce_safe_dma_unmap Released
unlock-IsLinked t id m polls f l =
    let (l1, free) = Released-from t id m polls m.active_channel f refl l in
    (
      record {
        fit = l1.fit;
        link = λ j k e. elim (Bool-cases (k == id)) [
          | inl y ↦ let same : k ≡ id = (==_iff k id).0 y in absurd (free j (e ∙ ap some same))
          | inr n ↦ let (b, (m1, g, a)) = l1.link j k e in (b, (m1, rw n g, a))
        ];
      },
      free,
    )

pub lock-IsLinked :
    (s : Session) (ctx : ℕ) (m : MapInfo)
    → s.device.dma_mappings m.id ≡ none
    → IsLinked s.device
    → IsLinked (keep_mapping s ctx (mapping m)).0.device
unfolding keep_mapping
lock-IsLinked s ctx m fresh l = record {
  fit = l.fit;
  link = λ j k e.
      let (b, (m1, g, a)) = l.link j k e in
      elim (Bool-cases (k == m.id)) [
        | inl y ↦
            let same : k ≡ m.id = (==_iff k m.id).0 y in
            let clash = sym g ∙ ap s.device.dma_mappings same ∙ fresh in absurd (cc clash)
        | inr n ↦ (b, (m1, rw n g, a))
      ];
}
