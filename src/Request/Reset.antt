-- ===== src/Request/Reset.antt =====
-- linux/request.c: what `reset_dma_info` does to the other channels and to the mappings.
use tpce2drv.Prelude.{
  ℕ, ◌==◌, ◌≡◌, ◌≢◌, refl, sym, arith, ap, ◌∙◌, Option, none, some, is_some, Option-cases,
  Bool-cases, inl, inr, ==_iff,
}
use tpce2drv.Device.{Tpce, ChannelState, idle, initialized, running, complete, error, illegal}
use tpce2drv.Dma.Stop.{Polls, tpce_dma_abort}
use tpce2drv.Dma.Stop.Laws.{abort-effect, abort-rest}
use tpce2drv.Request.{release_mapping, release_channel, reset_dma_info}

-- Two devices that differ in one channel, and where the same mappings exist.
pub record SameBut (ch : ℕ) (t t' : Tpce) : Type 0 where
  pub others : (j : ℕ) → j ≢ ch → t'.dma_info j ≡ t.dma_info j
  pub mapped : (id : ℕ) → is_some (t'.dma_mappings id) ≡ is_some (t.dma_mappings id)
  pub same_refs : t'.refs ≡ t.refs
  pub same_going : t'.going_away ≡ t.going_away

SameBut-trans : (ch : ℕ) (a b c : Tpce) → SameBut ch a b → SameBut ch b c → SameBut ch a c
SameBut-trans ch a b c f g = record {
  others = λ j ne. g.others j ne ∙ f.others j ne;
  mapped = λ id. g.mapped id ∙ f.mapped id;
  same_refs = g.same_refs ∙ f.same_refs;
  same_going = g.same_going ∙ f.same_going;
}

release_mapping-mapped :
    (t : Tpce) (o : Option ℕ) (id : ℕ)
    → is_some (release_mapping t o id) ≡ is_some (t.dma_mappings id)
release_mapping-mapped t none id = refl
release_mapping-mapped t (some k) id = elim (Option-cases (t.dma_mappings k)) [
  | inl e ↦ rw (e, release_mapping) refl
  | inr (m, e) ↦ elim (Bool-cases (id == k)) [
    | inl y ↦
        let here : id ≡ k = (==_iff id k).0 y in
        rw (e, release_mapping, y) (sym (ap (λ i. is_some (t.dma_mappings i)) here ∙ ap is_some e))
    | inr n ↦ rw (e, release_mapping, n) refl
  ]
]

release-SameBut : (t : Tpce) (ch : ℕ) → SameBut ch t (release_channel t ch)
unfolding release_channel
release-SameBut t ch = record {
  others = λ j ne. ground arith;
  mapped = λ id. release_mapping-mapped t (t.dma_info ch).map_info id;
  same_refs = refl;
  same_going = refl;
}

pub abort-SameBut : (t : Tpce) (ch : ℕ) (polls : Polls) → SameBut ch t (tpce_dma_abort t ch polls)
abort-SameBut t ch polls =
    let effect = abort-effect t ch polls in
    let rest = abort-rest t ch polls in
    record {
      others = effect.2;
      mapped = λ id. ap (λ f. is_some (f id)) effect.3;
      same_refs = rest.0;
      same_going = rest.1;
    }

reset_from :
    (t : Tpce) (ch : ℕ) (polls : Polls) (s : ChannelState)
    → (t.dma_info ch).state ≡ s
    → SameBut ch t (reset_dma_info t ch polls)
unfolding reset_dma_info
reset_from t ch polls idle e =
    rw (e, reset_dma_info)
      (record { others = λ j ne. refl; mapped = λ id. refl; same_refs = refl; same_going = refl })
reset_from t ch polls initialized e = rw (e, reset_dma_info) (release-SameBut t ch)
reset_from t ch polls running e =
    let t1 = tpce_dma_abort t ch polls in
    rw (e, reset_dma_info)
      (SameBut-trans ch t t1 (release_channel t1 ch) (abort-SameBut t ch polls)
        (release-SameBut t1 ch))
reset_from t ch polls complete e = rw (e, reset_dma_info) (release-SameBut t ch)
reset_from t ch polls error e = rw (e, reset_dma_info) (release-SameBut t ch)
reset_from t ch polls (illegal n) e =
    rw (e, reset_dma_info)
      (record {
        others = λ j ne. ground arith;
        mapped = λ id. refl;
        same_refs = refl;
        same_going = refl;
      })

-- Whatever state the channel is in.
pub reset-SameBut : (t : Tpce) (ch : ℕ) (polls : Polls) → SameBut ch t (reset_dma_info t ch polls)
reset-SameBut t ch polls = reset_from t ch polls (t.dma_info ch).state refl
