-- ===== src/Descriptors/Gcd.antt =====
-- Euclid's algorithm, and the common divisors of the ranges of a mapping.
use Prim.Native.Nat.{◌∣◌}
use mathlib.Core.Logic.{dif_pos, dif_neg}
use mathlib.Core.WellFounded.{Acc}
use native.Mathlib.Decide.{dec_lt}
use native.Mathlib.Nat.{dvd-mod_iff, dvd-zero}
use native.Mathlib.Bridge.{le_prop}
use tpce2drv.Prelude.{
  ℕ, ◌%◌, ◌<◌, ◌==◌, ◌≡◌, ◌≢◌, refl, arith, List, [], ◌∷◌, All, lt_wf, ◌↔◌, Bool-cases, inl, inr,
  ==_iff, subst,
}
use tpce2drv.Types.{SgEntry, MapInfo}
use tpce2drv.Descriptors.{gcd_loop, gcd, gcd_sizes, gcd_of_sizes, gcd_dma_page_sizes}

gcd_loop-divides : (a b d : ℕ) (w : Acc ◌<◌ b) → (d ∣ gcd_loop a b w) ↔ ((d ∣ a) × (d ∣ b))
unfolding gcd_loop
gcd_loop-divides a b d (Acc.intro _ smaller) = elim (dec_lt 0 b) [
  | yes p ↦
      let r = gcd_loop-divides b (a % b) d (smaller (a % b) (omega arith)) in
      rw (dif_pos (dec_lt 0 b) le_prop p) (
        (λ h. ((dvd-mod_iff d {m = a} {n = b} (r.0 h).0).0 (r.0 h).1, (r.0 h).0)),
        (λ h. r.1 (h.1, (dvd-mod_iff d {m = a} {n = b} h.1).1 h.0)),
      )
  | no p ↦
      let z : b ≡ 0 = omega arith in
      rw (dif_neg (dec_lt 0 b) p) ((λ h. (h, rw z (dvd-zero d))), (λ h. h.0))
]

-- The common divisors of two numbers are the divisors of `gcd`.
pub gcd-divides : (a b d : ℕ) → (d ∣ gcd a b) ↔ ((d ∣ a) × (d ∣ b))
unfolding gcd
gcd-divides a b d = gcd_loop-divides a b d (lt_wf.apply b)

gcd_sizes-divides :
    (res prev d : ℕ) (ss : List SgEntry)
    → (d ∣ res → d ∣ prev)
    → (d ∣ gcd_sizes res prev ss) ↔ ((d ∣ res) × All (λ s. d ∣ s.dma_len) ss)
unfolding gcd_sizes
gcd_sizes-divides res prev d [] k = ((λ h. (h, tt)), (λ h. h.0))
gcd_sizes-divides res prev d (s ∷ ss) k = elim (Bool-cases (prev == s.dma_len)) [
  | inl e ↦
      let same : prev ≡ s.dma_len = (==_iff prev s.dma_len).0 e in
      let r = gcd_sizes-divides res s.dma_len d ss (λ h. subst (λ x. d ∣ x) same (k h)) in
      rw e (
        (λ h. ((r.0 h).0, (subst (λ x. d ∣ x) same (k (r.0 h).0), (r.0 h).1))),
        (λ h. r.1 (h.0, h.1.1)),
      )
  | inr e ↦
      let g = gcd-divides res s.dma_len d in
      let r = gcd_sizes-divides (gcd res s.dma_len) s.dma_len d ss (λ h. (g.0 h).1) in
      rw e (
        (λ h. ((g.0 (r.0 h).0).0, ((g.0 (r.0 h).0).1, (r.0 h).1))),
        (λ h. r.1 (g.1 (h.0, h.1.0), h.1.1)),
      )
]

gcd_of_sizes-divides :
    (ss : List SgEntry) (d : ℕ) → ss ≢ [] → (d ∣ gcd_of_sizes ss) ↔ All (λ s. d ∣ s.dma_len) ss
unfolding gcd_of_sizes
gcd_of_sizes-divides [] d ne = absurd (ne refl)
gcd_of_sizes-divides (s ∷ ss) d ne = gcd_sizes-divides s.dma_len s.dma_len d ss (λ h. h)

-- For a mapping with at least one range, a number divides the result of `gcd_dma_page_sizes`
-- exactly if it divides the length of every range.
pub gcd_dma_page_sizes-divides :
    (m : MapInfo) (d : ℕ) → m.sgt ≢ [] → (d ∣ gcd_dma_page_sizes m) ↔ All (λ s. d ∣ s.dma_len) m.sgt
unfolding gcd_dma_page_sizes
gcd_dma_page_sizes-divides m d ne = gcd_of_sizes-divides m.sgt d ne
