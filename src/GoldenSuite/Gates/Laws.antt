-- ===== src/GoldenSuite/Gates/Laws.antt =====
-- `validateQualityGates` accepts exactly the contracts that satisfy `IsValidGates`.
use truthmetal.Base.{
  suc, ◌+◌, String, ◌≡◌, refl, ap, string_dec, ◌↔◌, inl, inr, false, Option, none, some, List, [],
  ◌∷◌, ok, arith, >>_iff, length, lookup, All, member, Distinct, Bool-cases, Option-cases,
}
use truthmetal.Base.Pigeonhole.{
  Member, subset_covers, length-le_of_subset, All-subset, All-of_members,
}
use truthmetal.GoldenSuite.Contract.{
  Manifest, MetricGate, MetricMapping, VerentirMapping, QualityGateContract, required_metrics,
}
use truthmetal.GoldenSuite.Libs.{Libs}
use truthmetal.GoldenSuite.Sets.Laws.{unseen-cons, All-unseen-nil}
use truthmetal.GoldenSuite.Gates.{
  check_metric, check_metrics, is_bad_mapping, check_mappings, check_signing_key,
  check_gate_identity, check_verentir_mapping, validate_quality_gates,
}
use truthmetal.GoldenSuite.Gates.Spec.{
  metric_keys, required_keys, InUnitInterval, IsMetric, GatesRequired, IsMapped, IsValidMapping,
  IsSigningKey, IsShadowGate, IsValidGates, IsKeyOrder,
}

check_metric_iff :
    (c : Option String) (seen : List String) (metric : MetricGate)
    → (check_metric c seen metric ≡ ok tt) ↔ (
        (c ≡ some metric.comparator)
        × (member metric.key seen ≡ false)
        × InUnitInterval metric.threshold)
unfolding check_metric
check_metric_iff none seen metric = (λ h. cc, λ h. cc)
check_metric_iff (some c) seen metric = (λ h. ground arith, λ h. ground arith)

module _ (m : Manifest) (gates : QualityGateContract) where
  check_gate_identity_iff : (check_gate_identity m gates ≡ ok tt) ↔ IsShadowGate m gates
  unfolding check_gate_identity
  check_gate_identity_iff = (λ h. ground arith, λ h. ground arith)

is_bad_mapping_iff :
    (mappings : List (String × MetricMapping)) (key : String)
    → (is_bad_mapping key (lookup key mappings) ≡ false) ↔ IsMapped mappings key
unfolding is_bad_mapping
is_bad_mapping_iff mappings key = elim (Option-cases (lookup key mappings)) [
  | inl e ↦ (λ h. cc (h, e), λ p. cc (p.1, e))
  | inr (mapping, e) ↦
      (λ h. (mapping, e, ground arith, ground arith), λ p. ground (arith, p.1, p.2, p.3))
]

check_mappings_iff :
    (mappings : List (String × MetricMapping)) (keys : List String)
    → (check_mappings mappings keys ≡ ok tt) ↔ All (IsMapped mappings) keys
unfolding check_mappings
check_mappings_iff mappings [] = (λ _. tt, λ _. refl)
check_mappings_iff mappings (key ∷ keys) =
    let (bad, good) = is_bad_mapping_iff mappings key in
    let (sound, complete) = check_mappings_iff mappings keys in
    (
      λ h. elim (Bool-cases (is_bad_mapping key (lookup key mappings))) [
        | inl e ↦ cc (h, e)
        | inr e ↦ (bad e, sound (rw e at h))
      ],
      λ (p, ps). rw (good p) (complete ps),
    )

-- The order of the loop over the required keys does not matter.
check_mappings_order :
    (key_order : List String) (mappings : List (String × MetricMapping))
    → IsKeyOrder key_order
    → (check_mappings mappings key_order ≡ ok tt) ↔ All (IsMapped mappings) required_keys
check_mappings_order key_order mappings o = (
  λ h.
      All-subset (IsMapped mappings) key_order required_keys o.every
        ((check_mappings_iff mappings key_order).0 h),
  λ a.
      (check_mappings_iff mappings key_order).1
        (All-subset (IsMapped mappings) required_keys key_order o.only a),
)

check_verentir_mapping_iff :
    (key_order : List String) (mapping : VerentirMapping)
    → IsKeyOrder key_order
    → (check_verentir_mapping key_order mapping ≡ ok tt) ↔ IsValidMapping mapping
unfolding check_verentir_mapping
check_verentir_mapping_iff key_order mapping o =
    let (sound, complete) = check_mappings_order key_order mapping.metrics o in
    (
      λ h. record {
        version = ground arith;
        available = ground arith;
        size = ground arith;
        maps = sound (ground arith);
      },
      λ v. ground (arith, v, complete v.maps),
    )

-- The loop over the metrics, from `seen` on.
record Rest (seen : List String) (metrics : List MetricGate) : Type 0 where
  each : All IsMetric metrics
  unseen : All (λ key. member key seen ≡ false) (metric_keys metrics)
  once : Distinct (metric_keys metrics)
  count : length seen + length metrics ≡ length required_metrics

check_metrics_iff :
    (seen : List String) (metrics : List MetricGate)
    → (check_metrics seen metrics ≡ ok tt) ↔ Rest seen metrics
unfolding check_metrics
check_metrics_iff seen [] = (
  λ h. record { each = tt; unseen = tt; once = tt; count = ground arith },
  λ r. ground (arith, r),
)
check_metrics_iff seen (metric ∷ metrics) =
    let c = lookup metric.key required_metrics in
    let keys = metric_keys metrics in
    let (sound, complete) = check_metrics_iff (metric.key ∷ seen) metrics in
    (
      λ h.
          let (m, rest) = (>>_iff (check_metric c seen metric) _).0 h in
          let (comparator, unseen, threshold) = (check_metric_iff c seen metric).0 m in
          let r = sound rest in
          let (others, new) = (unseen-cons metric.key seen keys).0 r.unseen in
          record {
            each = (record { comparator = comparator; threshold = threshold }, r.each);
            unseen = (unseen, others);
            once = (new, r.once);
            count = omega (arith, r.count);
          },
      λ r. (>>_iff (check_metric c seen metric) _).1 (
        (check_metric_iff c seen metric).1 (r.each.0.comparator, r.unseen.0, r.each.0.threshold),
        complete (record {
          each = r.each.1;
          unseen = (unseen-cons metric.key seen keys).1 (r.unseen.1, r.once.0);
          once = r.once.1;
          count = omega (arith, r.count);
        }),
      ),
    )

length-metric_keys : (metrics : List MetricGate) → length (metric_keys metrics) ≡ length metrics
length-metric_keys [] = refl
length-metric_keys (_ ∷ metrics) = ap suc (length-metric_keys metrics)

IsMetric-required : (metric : MetricGate) → IsMetric metric → Member required_keys metric.key
IsMetric-required metric h = ground (arith, h.comparator)

All-required :
    (metrics : List MetricGate)
    → All IsMetric metrics
    → All (Member required_keys) (metric_keys metrics)
All-required [] h = tt
All-required (metric ∷ metrics) (h, hs) = (IsMetric-required metric h, All-required metrics hs)

required_keys-Distinct : Distinct required_keys
unfolding string_dec
required_keys-Distinct = (refl, (refl, (refl, (refl, (refl, (refl, tt))))))

-- The count of distinct keys is that of the required ones exactly if each required one is there.
GatesRequired-iff :
    (metrics : List MetricGate) → (check_metrics [] metrics ≡ ok tt) ↔ GatesRequired metrics
GatesRequired-iff metrics =
    let keys = metric_keys metrics in
    (
      λ h.
          let r = (check_metrics_iff [] metrics).0 h in
          record {
            each = r.each;
            once = r.once;
            covers = All-of_members (Member keys) required_keys (
                subset_covers keys required_keys r.once (All-required metrics r.each)
                  (omega (arith, r.count, length-metric_keys metrics)));
          },
      λ g. (check_metrics_iff [] metrics).1 (record {
        each = g.each;
        unseen = All-unseen-nil keys;
        once = g.once;
        count = omega (
          arith,
          length-metric_keys metrics,
          length-le_of_subset keys required_keys g.once (All-required metrics g.each),
          length-le_of_subset required_keys keys required_keys-Distinct g.covers,
        );
      }),
    )

module _ (lib : Libs) where
  check_signing_key_iff :
      (status : String) (key : Option String)
      → (check_signing_key lib status key ≡ ok tt) ↔ IsSigningKey lib status key
  unfolding check_signing_key
  check_signing_key_iff status none = (λ h. ground arith, λ h. ground arith)
  check_signing_key_iff status (some key) = elim (Option-cases (lib.base64_decode key)) [
    | inl e ↦ (λ h. absurd (ground arith), λ p. cc (e, p.1.1))
    | inr (decoded, e) ↦
        (λ h. (ground arith, (decoded, e, ground arith)), λ p. ground (arith, p.0, p.1.1, p.1.2))
  ]

  -- Whatever the order in which Go ranges over the required metrics, `validateQualityGates`
  -- accepts exactly the contracts that satisfy `IsValidGates`: it is a shadow-only contract
  -- of TruthMetal that fits the manifest, it gates each required metric exactly once with the
  -- required comparator and a threshold from 0 to 1, it maps each of them, and it publishes a
  -- 32-byte key exactly if the trust anchor is not pending.
  pub validate_quality_gates_iff :
      (key_order : List String) (m : Manifest) (gates : QualityGateContract)
      → IsKeyOrder key_order
      → (validate_quality_gates lib key_order m gates ≡ ok tt) ↔ IsValidGates lib m gates
  unfolding validate_quality_gates
  validate_quality_gates_iff key_order m gates o =
      let mapping = gates.verentir_mapping in
      let (is, si) = check_gate_identity_iff m gates in
      let (ms, sm) = GatesRequired-iff gates.metrics in
      let (vs, sv) = check_verentir_mapping_iff key_order mapping o in
      let (ks, sk) =
        check_signing_key_iff m.signing_trust_anchor_status mapping.result_signing_public_key in
      (
        λ h.
            let (i, rest) = (>>_iff (check_gate_identity m gates) _).0 h in
            let (c, rest') = (>>_iff (check_metrics [] gates.metrics) _).0 rest in
            let (v, k) = (>>_iff (check_verentir_mapping key_order mapping) _).0 rest' in
            record { shadow = is i; metrics = ms c; mapping = vs v; signing = ks k },
        λ g. (>>_iff (check_gate_identity m gates) _).1 (
          si g.shadow,
          (>>_iff (check_metrics [] gates.metrics) _).1 (
            sm g.metrics,
            (>>_iff (check_verentir_mapping key_order mapping) _).1 (sv g.mapping, sk g.signing),
          ),
        ),
      )
