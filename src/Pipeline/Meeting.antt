-- ===== src/Pipeline/Meeting.antt =====
-- `knownSiteIDs_` and the calls of `onUnknownPeer_`.
use cs4730_collaborative_tex.Base.{
  ℕ, ◌≡◌, refl, sym, ap, subst, ◌∙◌, inl, inr, false, List, [], ◌∷◌, ◌++◌, some, arith, Bool-cases,
  Option-cases,
}
use cs4730_collaborative_tex.Rga.{Operation, can_apply}
use cs4730_collaborative_tex.Pipeline.{
  Notice, take_in, Pipeline, Handled, knows, meet, handle, crdt_loop,
}
use cs4730_collaborative_tex.Pipeline.Handling.{handle_able, crdt_loop_more}

-- The known sites after sites became known, the newest first.
abbrev pub with_sites : List ℕ → List ℕ → List ℕ
with_sites [] known = known
with_sites (s ∷ ss) known = with_sites ss (s ∷ known)

-- Each site is unknown when it is met.
abbrev pub IsNews : List ℕ → List ℕ → Type 0
IsNews known [] = Unit
IsNews known (s ∷ ss) = (knows s known ≡ false) × IsNews (s ∷ known) ss

-- The sites that a function told of were unknown, and are known now.
abbrev MeetsNews : List ℕ → Handled → Type 0
MeetsNews known h = IsNews known h.unknown × (h.pipeline.known ≡ with_sites h.unknown known)

with_sites-append :
    (a b known : List ℕ) → with_sites (a ++ b) known ≡ with_sites b (with_sites a known)
with_sites-append [] b known = refl
with_sites-append (s ∷ a) b known = with_sites-append a b (s ∷ known)

IsNews-append :
    (a b known : List ℕ) → IsNews known a → IsNews (with_sites a known) b → IsNews known (a ++ b)
IsNews-append [] b known ha hb = hb
IsNews-append (s ∷ a) b known ha hb = (ha.0, IsNews-append a b (s ∷ known) ha.1 hb)

meet-MeetsNews :
    (op : Operation) (p : Pipeline) (ns : List Notice) → MeetsNews p.known (meet op p ns)
meet-MeetsNews op p ns = elim (Bool-cases (knows op.id.site p.known)) [
  | inl e ↦ rw e (tt, refl)
  | inr e ↦ rw e ((e, tt), refl)
]

handle-MeetsNews :
    (op : Operation) (p : Pipeline) (h : Handled) → handle op p ≡ some h → MeetsNews p.known h
unfolding handle
handle-MeetsNews op p h ran = elim (Bool-cases p.syncing) [
  | inl s ↦
      let same : record {
        pipeline = record p { sync_buffer = p.sync_buffer ++ op ∷ [] };
        notified = [];
        unknown = [];
      }
          ≡ h =
        ground (arith, s) in
      subst (MeetsNews p.known) same (tt, refl)
  | inr s ↦ elim (Bool-cases (can_apply op p.engine)) [
    | inr unable ↦
        let same : record {
          pipeline = record p { pending = p.pending ++ op ∷ [] };
          notified = [];
          unknown = [];
        }
            ≡ h =
          ground (arith, s, unable) in
        subst (MeetsNews p.known) same (tt, refl)
    | inl able ↦ elim (Option-cases (take_in op p.engine p.pending)) [
      | inl lost ↦ absurd (ground (arith, s, able, lost))
      | inr (d, found) ↦
          let same : meet op (record p { engine = d.engine; pending = d.pending }) d.notified ≡ h =
            let e = handle_able op p d s able found in cc in
          subst (MeetsNews p.known) same
            (meet-MeetsNews op (record p { engine = d.engine; pending = d.pending }) d.notified)
    ]
  ]
]

-- `onUnknownPeer_` is called at most once for each site, and for none that is known already; each
-- site that it is called for is known afterwards, and no site is forgotten.
pub crdt_loop-IsNews :
    (ops : List Operation) (p : Pipeline) (h : Handled)
    → crdt_loop ops p ≡ some h
    → IsNews p.known h.unknown × (h.pipeline.known ≡ with_sites h.unknown p.known)
unfolding crdt_loop
crdt_loop-IsNews [] p h ran =
    let same : record { pipeline = p; notified = []; unknown = [] } ≡ h = cc in
    subst (MeetsNews p.known) same (tt, refl)
crdt_loop-IsNews (op ∷ ops) p h ran = elim (Option-cases (handle op p)) [
  | inl lost ↦ absurd (ground (arith, lost))
  | inr (one, found) ↦ elim (Option-cases (crdt_loop ops one.pipeline)) [
    | inl lost ↦ absurd (ground (arith, found, lost))
    | inr (r, found') ↦
        let same : record {
          pipeline = r.pipeline;
          notified = one.notified ++ r.notified;
          unknown = one.unknown ++ r.unknown;
        }
            ≡ h =
          let e = crdt_loop_more op ops p one r found found' in cc in
        let (news, known) = handle-MeetsNews op p one found in
        let (news', known') = crdt_loop-IsNews ops one.pipeline r found' in
        subst (MeetsNews p.known) same (
          IsNews-append one.unknown r.unknown p.known news
              (subst (λ k. IsNews k r.unknown) known news'),
          known'
              ∙ ap (with_sites r.unknown) known
              ∙ sym (with_sites-append one.unknown r.unknown p.known),
        )
  ]
]
