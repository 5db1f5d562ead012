-- ===== src/BaseDiff/Digests.antt =====
-- internal/enrich/attribution and internal/enrich/basediff together: what an origin in the prefix mode says of
-- the two images.
use astinus.Base.{
  ℕ, zero, suc, ◌≡◌, sym, ◌∙◌, ap, inl, inr, true, List, [], ◌∷◌, Option, none, some, Text, text_eq,
  nat_eq, Bool-cases, ok,
}
use astinus.Model.{EvidenceLocation, LayerInfo, ComponentFields}
use astinus.Layers.{Layer, Image, FileMap, digest_text}
use astinus.Layers.Digests.{layer_at}
use astinus.Layers.Diff.{
  prefix_mode, Diff, is_base_layer, digest_at, compute_diff, is_base_layer-compute_diff,
}
use astinus.Attribution.Laws.{IsOwner}
use astinus.BaseDiff.Classify.{origin_base}
use astinus.BaseDiff.Stamp.{origin_for}

digest_at-layer_at :
    (lyrs : List Layer) (n : ℕ) (lyr : Layer) (d : Text)
    → layer_at lyrs n ≡ some lyr
    → digest_at lyrs n ≡ some d
    → digest_text lyr.digest ≡ d
digest_at-layer_at [] n lyr d h k = absurd (cc h)
digest_at-layer_at (l ∷ ls) zero lyr d h k =
    ap (λ (o : Option Layer). elim o [ none ↦ [] | some x ↦ digest_text x.digest ]) (sym h)
    ∙ ap digest_text k
digest_at-layer_at (l ∷ ls) (suc n) lyr d h k = digest_at-layer_at ls n lyr d h k

origin_for-base :
    (diff : Diff) (c : ComponentFields) (info : LayerInfo)
    → diff.mode ≡ prefix_mode
    → c.layer_info ≡ some info
    → origin_for diff c ≡ origin_base
    → is_base_layer diff info.layer_index ≡ true
unfolding origin_for
origin_for-base diff c info prefixed there h =
    elim (Bool-cases (is_base_layer diff info.layer_index)) [
      | inl below ↦ below
      | inr above ↦ absurd (cc (rw (prefixed, there, above, origin_for) at h))
    ]

-- Where `ComputeDiff` compares the layers, a component whose layer info an attribution took from the
-- target and whose origin is the base's has the digest of a layer that stands in the base's image at
-- the same number.
pub origin_for-digest :
    (ctx : ℕ → Option Text) (target base : Image) (ts bs : List Layer) (diff : Diff) (fm : FileMap)
    (c : ComponentFields) (info : LayerInfo) (locs : List EvidenceLocation)
    → target.layers ≡ ok ts
    → base.layers ≡ ok bs
    → compute_diff ctx target base ≡ ok diff
    → diff.mode ≡ prefix_mode
    → c.layer_info ≡ some info
    → IsOwner ts fm locs info
    → origin_for diff c ≡ origin_base
    → digest_at bs info.layer_index ≡ some info.layer_digest
origin_for-digest ctx target base ts bs diff fm c info locs read read' made prefixed there
      (p, _, _, (lyr, here, same)) h =
    let (d, in_base, in_target) =
      is_base_layer-compute_diff ctx target base ts bs diff info.layer_index read read' made
        (origin_for-base diff c info prefixed there h) in
    in_base ∙ ap some (sym (same ∙ digest_at-layer_at ts info.layer_index lyr d here in_target))
