-- ===== src/System/Links.antt =====
-- The links between channels and mappings, through the set-up, the start and the end of a request.
use tpce2drv.Prelude.{
  ℕ, ◌<◌, ◌==◌, if◌then◌else◌, ◌≡◌, ◌≢◌, refl, sym, arith, ap, ◌∙◌, true, Option, none, some,
  Option-cases, Bool-cases, inl, inr, ==_iff, ℤ, pos, pos_part, update,
}
use tpce2drv.Types.{MapInfo, mode_default, mode_stream}
use tpce2drv.Device.{
  Tpce, ChannelState, idle, initialized, running, complete, error, illegal, Result, failed, ok,
  einval,
}
use tpce2drv.Device.Links.{fits, links, SameLinks, Passes-if, Passes-same}
use tpce2drv.Dma.Links.{start-Passes, stream_start-Passes}
use tpce2drv.Dma.Stop.{Polls, tpce_dma_abort}
use tpce2drv.Dma.Stop.Laws.{abort-SameLinks}
use tpce2drv.Request.{Request, release_mapping, release_channel, reset_dma_info, dma_dispatch}
use tpce2drv.Request.Init.{Inits}
use tpce2drv.System.{IsUnused}

-- A mapping that exists and notes the channel
abbrev pub NotedBy : Tpce → ℕ → ℕ → Type 0
NotedBy t ch id = (m : MapInfo) × (t.dma_mappings id ≡ some m) × (m.active_channel ≡ pos ch)

-- A free channel notes no mapping, no state is illegal, and what a channel notes is noted by it.
pub record IsLinked (t : Tpce) : Type 0 where
  pub fit : (ch : ℕ) → fits (t.dma_info ch).state (t.dma_info ch).map_info ≡ true
  pub link : (ch id : ℕ) → (t.dma_info ch).map_info ≡ some id → (ch < 3) × NotedBy t ch id

pub SameLinks-IsLinked : (t t' : Tpce) → SameLinks t t' → IsLinked t → IsLinked t'
SameLinks-IsLinked t t' s l = record {
  fit = λ ch.
      ap (fits (t'.dma_info ch).state) (s.same_map_info ch)
      ∙ s.still_fits ch (t.dma_info ch).map_info (l.fit ch);
  link = λ ch id e.
      let (below, (m, f, a)) = l.link ch id (sym (s.same_map_info ch) ∙ e) in
      (below, (m, ap (λ g. g id) s.same_mappings ∙ f, a));
}

pub pos_injective : (a b : ℕ) → pos a ≡ pos b → a ≡ b
pos_injective a b e = ap pos_part e

pub some_injective : (a b : ℕ) → some a ≡ some b → a ≡ b
some_injective a b e = ap (value 0) e
  where
    value : ℕ → Option ℕ → ℕ
    value d none = d
    value d (some n) = n

pub active_of : (m m1 : MapInfo) → some m ≡ some m1 → m.active_channel ≡ m1.active_channel
active_of m m1 e = ap active e
  where
    active : Option MapInfo → ℤ
    active none = pos 0
    active (some m) = m.active_channel

-- The links once channel `ch` and mapping `k` are joined
joined : Tpce → ℕ → ℕ → ℕ → ChannelState × Option ℕ
joined t ch k j = if j == ch then (initialized, some k) else links t j

joined-fit :
    (t : Tpce) (ch k j : ℕ) → IsLinked t → fits (joined t ch k j).0 (joined t ch k j).1 ≡ true
unfolding joined
joined-fit t ch k j l = elim (Bool-cases (j == ch)) [ inl y ↦ rw y refl | inr n ↦ rw n (l.fit j) ]

-- The mapping that is found under `id` after the join
joined-link :
    (t : Tpce) (ch k j id : ℕ) (m : MapInfo)
    → ch < 3
    → IsUnused t k
    → t.dma_mappings k ≡ some m
    → IsLinked t
    → (joined t ch k j).1 ≡ some id
    → (j < 3)
      × (m' : MapInfo) × (update t.dma_mappings k (some (record m { active_channel = pos ch })) id
          ≡ some m')
      × (m'.active_channel ≡ pos j)
unfolding joined IsUnused
joined-link t ch k j id m below unused f l = elim (Bool-cases (j == ch)) [
  | inl y ↦
      rw (y, joined)
        λ e.
          let same : j ≡ ch = (==_iff j ch).0 y in
          let here : (id == k) ≡ true = ground (arith, some_injective k id e) in
          (
            omega (arith, same),
            record m { active_channel = pos ch },
            rw here refl,
            ap pos (sym same),
          )
  | inr n ↦
      rw (n, joined)
        λ e.
          let (b, (m0, g, a)) = l.link j id e in
          elim (Bool-cases (id == k)) [
            | inl y ↦
                let same : id ≡ k = (==_iff id k).0 y in
                let free = unused m0 (ap t.dma_mappings (sym same) ∙ g) in absurd (cc (free, a))
            | inr z ↦ (b, m0, rw z g, a)
          ]
]

pub init-IsLinked :
    (t : Tpce) (ch : ℕ) (req : Request) (x : Tpce × Result ℕ)
    → ch < 3
    → IsUnused t req.id
    → Inits t ch req x
    → IsLinked t
    → IsLinked x.0
unfolding Inits joined
init-IsLinked t ch req (t', failed e) below unused (f, same) l = record {
  fit = λ j. ap (λ s. fits s.0 s.1) (same j) ∙ l.fit j;
  link = λ j id e.
      let (b, (m, g, a)) = l.link j id (sym (ap (λ s. s.1) (same j)) ∙ e) in
      (b, (m, ap (λ h. h id) f ∙ g, a));
}
init-IsLinked t ch req (t', ok n) below unused (m, f, u, same) l = record {
  fit = λ j. ap (λ s. fits s.0 s.1) (same j) ∙ joined-fit t ch req.id j l;
  link = λ j id e.
      let (b, m', g, a) =
        joined-link t ch req.id j id m below unused f l (sym (ap (λ s. s.1) (same j)) ∙ e) in
      (b, (m', ap (λ h. h id) u ∙ g, a));
}

-- The release of channel `ch` takes its mapping away from it, and from no other channel.
release-link :
    (t : Tpce) (ch j id : ℕ)
    → j ≢ ch
    → IsLinked t
    → NotedBy t j id
    → (m : MapInfo) × (release_mapping t (t.dma_info ch).map_info id ≡ some m)
      × (m.active_channel ≡ pos j)
release-link t ch j id ne l (m, f, a) = elim (Option-cases (t.dma_info ch).map_info) [
  | inl e ↦ rw e (m, f, a)
  | inr (k, e) ↦
      let (b, (m1, g, c)) = l.link ch k e in
      elim (Bool-cases (id == k)) [
        | inl y ↦
            let same : id ≡ k = (==_iff id k).0 y in
            let one : some m ≡ some m1 = sym f ∙ ap t.dma_mappings same ∙ g in
            absurd (ne (pos_injective j ch (sym a ∙ active_of m m1 one ∙ c)))
        | inr z ↦ rw (e, release_mapping, g) (rw z (m, f, a))
      ]
]

release-IsLinked : (t : Tpce) (ch : ℕ) → IsLinked t → IsLinked (release_channel t ch)
unfolding release_channel
release-IsLinked t ch l = record {
  fit = λ j. elim (Bool-cases (j == ch)) [ inl y ↦ rw y refl | inr n ↦ rw n (l.fit j) ];
  link = λ j id. elim (Bool-cases (j == ch)) [
    | inl y ↦ rw y λ e. absurd (cc e)
    | inr n ↦ rw n λ e.
        let (b, noted) = l.link j id e in (b, release-link t ch j id (ground (arith, n)) l noted)
  ];
}

reset_from :
    (t : Tpce) (ch : ℕ) (polls : Polls) (s : ChannelState)
    → (t.dma_info ch).state ≡ s
    → IsLinked t
    → IsLinked (reset_dma_info t ch polls)
unfolding reset_dma_info
reset_from t ch polls idle e l = rw (e, reset_dma_info) l
reset_from t ch polls initialized e l = rw (e, reset_dma_info) (release-IsLinked t ch l)
reset_from t ch polls running e l =
    let t1 = tpce_dma_abort t ch polls in
    rw (e, reset_dma_info)
      (release-IsLinked t1 ch (SameLinks-IsLinked t t1 (abort-SameLinks t ch polls) l))
reset_from t ch polls complete e l = rw (e, reset_dma_info) (release-IsLinked t ch l)
reset_from t ch polls error e l = rw (e, reset_dma_info) (release-IsLinked t ch l)
reset_from t ch polls (illegal n) e l =
    let legal : fits (illegal n) (t.dma_info ch).map_info ≡ true =
      ap (λ s. fits s (t.dma_info ch).map_info) (sym e) ∙ l.fit ch in
    absurd (cc legal)

pub reset-IsLinked :
    (t : Tpce) (ch : ℕ) (polls : Polls) → IsLinked t → IsLinked (reset_dma_info t ch polls)
reset-IsLinked t ch polls l = reset_from t ch polls (t.dma_info ch).state refl l

pub dispatch-IsLinked :
    (t : Tpce) (ch : ℕ) (stale : ℤ) → IsLinked t → IsLinked (dma_dispatch t ch stale).0
unfolding dma_dispatch
dispatch-IsLinked t ch stale l =
    let p =
      Passes-if t ((t.dma_info ch).params.transfer_mode == mode_default) _ _
        (start-Passes t ch stale)
        (Passes-if t ((t.dma_info ch).params.transfer_mode == mode_stream) _ _
          (stream_start-Passes t ch stale) (Passes-same t (failed einval))) in
    SameLinks-IsLinked t _ p.passed l
