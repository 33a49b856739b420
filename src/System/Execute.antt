-- ===== src/System/Execute.antt =====
-- The release of a file in the system.
use tpce2drv.Prelude.{
  ℕ, ◌==◌, ◌≡◌, refl, arith, ap, ◌∙◌, sym, subst, false, Option, none, some, is_some, Option-cases,
  Bool-cases, inl, inr, pos_part, List, [], ◌∷◌, All,
}
use tpce2drv.Types.{MapInfo}
use tpce2drv.Device.{Tpce, mapping_is_busy}
use tpce2drv.Dma.Stop.{Polls, tpce_dma_abort}
use tpce2drv.Request.{tpce_safe_dma_unmap}
use tpce2drv.Request.Reset.{abort-SameBut, reset-SameBut}
use tpce2drv.Request.Ioctl.{Session, release_all, tpce_release}
use tpce2drv.System.Links.{IsLinked}
use tpce2drv.System.Unlock.{NotNoted, unlock-IsLinked}

is_none : (o : Option MapInfo) → is_some o ≡ false → o ≡ none
is_none none h = refl
is_none (some m) h = absurd (cc h)

-- What is gone stays gone when another mapping is given back.
unmap-none :
    (t : Tpce) (id k : ℕ) (m : MapInfo) (polls : Polls)
    → t.dma_mappings k ≡ none
    → (tpce_safe_dma_unmap t id m polls).dma_mappings k ≡ none
unfolding tpce_safe_dma_unmap
unmap-none t id k m polls e = elim (Bool-cases (k == id)) [
  | inl y ↦ rw y refl
  | inr n ↦ rw n (elim (Bool-cases (mapping_is_busy m)) [
    | inl b ↦
        let c = pos_part m.active_channel in
        let t1 = tpce_dma_abort t c polls in
        rw b (
          is_none _ (
            (reset-SameBut t1 c polls).mapped k
            ∙ (abort-SameBut t c polls).mapped k
            ∙ ap is_some e))
    | inr b ↦ rw b e
  ])
]

release_all-none :
    (t : Tpce) (ids : List ℕ) (k : ℕ) (polls : Polls)
    → t.dma_mappings k ≡ none
    → (release_all t ids polls).dma_mappings k ≡ none
unfolding release_all
release_all-none t [] k polls e = e
release_all-none t (id ∷ ids) k polls e = elim (Option-cases (t.dma_mappings id)) [
  | inl q ↦ rw (q, release_all) (release_all-none t ids k polls e)
  | inr (m, q) ↦
      rw (q, release_all)
        (release_all-none (tpce_safe_dma_unmap t id m polls) ids k polls
          (unmap-none t id k m polls e))
]

release_all-missing :
    (t : Tpce) (id : ℕ) (ids : List ℕ) (polls : Polls)
    → t.dma_mappings id ≡ none
    → release_all t (id ∷ ids) polls ≡ release_all t ids polls
unfolding release_all
release_all-missing t id ids polls q = rw (q, release_all) refl

release_all-found :
    (t : Tpce) (id : ℕ) (ids : List ℕ) (m : MapInfo) (polls : Polls)
    → t.dma_mappings id ≡ some m
    → release_all t (id ∷ ids) polls ≡ release_all (tpce_safe_dma_unmap t id m polls) ids polls
unfolding release_all
release_all-found t id ids m polls q = rw (q, release_all) refl

-- No mapping of a list is left.
AllGone : List ℕ → Tpce → Type 0
AllGone ids t = All (λ id. t.dma_mappings id ≡ none) ids

release_all-AllGone :
    (t : Tpce) (ids : List ℕ) (polls : Polls) → AllGone ids (release_all t ids polls)
unfolding tpce_safe_dma_unmap AllGone
release_all-AllGone t [] polls = tt
release_all-AllGone t (id ∷ ids) polls = elim (Option-cases (t.dma_mappings id)) [
  | inl q ↦
      subst (AllGone (id ∷ ids)) (sym (release_all-missing t id ids polls q))
        (release_all-none t ids id polls q, release_all-AllGone t ids polls)
  | inr (m, q) ↦
      let t1 = tpce_safe_dma_unmap t id m polls in
      subst (AllGone (id ∷ ids)) (sym (release_all-found t id ids m polls q))
        (release_all-none t1 ids id polls (ground arith), release_all-AllGone t1 ids polls)
]

release_all-IsLinked :
    (t : Tpce) (ids : List ℕ) (polls : Polls) → IsLinked t → IsLinked (release_all t ids polls)
unfolding release_all
release_all-IsLinked t [] polls l = l
release_all-IsLinked t (id ∷ ids) polls l = elim (Option-cases (t.dma_mappings id)) [
  | inl q ↦ rw (q, release_all) (release_all-IsLinked t ids polls l)
  | inr (m, q) ↦
      rw (q, release_all)
        (release_all-IsLinked (tpce_safe_dma_unmap t id m polls) ids polls
          (unlock-IsLinked t id m polls q l).0)
]

-- What is gone is noted by no channel.
gone-NotNoted : (t : Tpce) (id : ℕ) → IsLinked t → t.dma_mappings id ≡ none → NotNoted t id
gone-NotNoted t id l gone j e = let (b, (m, g, a)) = l.link j id e in absurd (cc (gone, g))

AllGone-NotNoted :
    (t : Tpce) (ids : List ℕ)
    → IsLinked t
    → AllGone ids t
    → All (λ id. (t.dma_mappings id ≡ none) × NotNoted t id) ids
unfolding AllGone
AllGone-NotNoted t [] l g = tt
AllGone-NotNoted t (id ∷ ids) l (g, gs) = ((g, gone-NotNoted t id l g), AllGone-NotNoted t ids l gs)

-- When a file is closed in a linked state, none of the mappings in its list is left, and no channel
-- notes one of them: no transfer runs on after its memory is unpinned.
pub release-AllGone :
    (s : Session) (polls : Polls)
    → IsLinked s.device
    → let t' = (tpce_release s polls).0 in
      All (λ id. (t'.dma_mappings id ≡ none) × NotNoted t' id) s.sublist
unfolding AllGone
release-AllGone s polls l =
    let t1 = release_all s.device s.sublist polls in
    let l1 = release_all-IsLinked s.device s.sublist polls l in
    AllGone-NotNoted (tpce_release s polls).0 s.sublist (record { fit = l1.fit; link = l1.link })
      (release_all-AllGone s.device s.sublist polls)
