-- ===== src/Paxos/Config/Governing.antt =====
-- Which configuration `config` of src/paxos/PaxosConfigManager.cc finds.
use universal_db.Base.{
  ℕ, zero, suc, ◌+◌, ◌≤◌, ◌<◌, ◌≡◌, refl, ap, sym, subst, ◌∙◌, Option, none, some, List, [], ◌∷◌,
  ◌++◌, map, ltb, leb, inc64_lem, u64_mod, length, last, last-append_one, get_elem?, arith,
  if◌then◌else◌, Bool-cases, Option-cases, inl, inr, get_elem?_total,
}
use universal_db.Base.Bytes.{Bytes}
use universal_db.Base.Result.{Result, ok, thrown, assertion, ok-injective}
use universal_db.Net.EndpointId.{EndpointId}
use universal_db.Paxos.Config.{
  IndexAndConfig, PaxosConfigManager, reconfigure, slave_endpoint, config_from, config,
}

-- The last configuration of the timeline whose index is not above the given one.
unfoldable pub governing : ℕ → List IndexAndConfig → Option (List EndpointId)
governing index [] = none
governing index (c ∷ cs) = elim (governing index cs) [
  | some slaves ↦ some slaves
  | none ↦ if leb c.index index then some c.slaves else none
]

abbrev pub found : Option (List EndpointId) → Result (List EndpointId)
found none = thrown assertion
found (some slaves) = ok slaves

-- The loop goes on with the first configuration when the others are above the index.
config_from-cons :
    (n index : ℕ) (c : IndexAndConfig) (cs : List IndexAndConfig)
    → n ≤ length cs
    → (o : Option (List EndpointId)) → config_from n index cs ≡ found o
    → config_from (suc n) index (c ∷ cs)
      ≡ found (elim o [
        | some slaves ↦ some slaves
        | none ↦ if leb c.index index then some c.slaves else none
      ])
unfolding config_from
config_from-cons zero index c cs h none e = ground arith
config_from-cons zero index c cs h (some s) e = cc
config_from-cons (suc n) index c cs h o e = elim (Option-cases (get_elem? cs n)) [
  | inl absent ↦ absurd (ground (arith, get_elem?_total cs n))
  | inr (d, at) ↦ elim (Bool-cases (ltb index d.index)) [
    | inl above ↦ ground (arith, at, above, e, config_from-cons n index c cs (omega arith) o)
    | inr governs ↦ ground (arith, at, governs, e)
  ]
]

-- `config` finds the configuration with the greatest position whose index is not above the given
-- one, and fails the assertion if there is none.
pub config-eq-governing :
    (index : ℕ) (m : PaxosConfigManager)
    → config index m ≡ found (governing index m.config_timeline)
unfolding config config_from governing
config-eq-governing index m = by_length m.config_timeline
  where
    by_length :
        (cs : List IndexAndConfig) → config_from (length cs) index cs ≡ found (governing index cs)
    by_length [] = refl
    by_length (c ∷ cs) =
        config_from-cons (length cs) index c cs (omega arith) (governing index cs) (by_length cs)

module _ (index : ℕ) (urls : List Bytes) where
  governing-append :
      (j : ℕ) (cs : List IndexAndConfig) (c : IndexAndConfig)
      → governing j (cs ++ c ∷ []) ≡ (if leb c.index j then some c.slaves else governing j cs)
  unfolding governing
  governing-append j [] c = ground arith
  governing-append j (d ∷ cs) c = ground (arith, governing-append j cs c)

  abbrev entered : IndexAndConfig
  entered = record { index = index + 1; slaves = map slave_endpoint urls }

  reconfigured :
      (cs : List IndexAndConfig) (m' : PaxosConfigManager)
      → index + 1 < u64_mod
      → reconfigure index urls (record { config_timeline = cs }) ≡ ok m'
      → m'.config_timeline ≡ cs ++ entered ∷ []
  unfolding reconfigure
  reconfigured [] m' w e = absurd (ground arith)
  reconfigured (first ∷ rest) m' w e = elim (Bool-cases (ltb (last first rest).index index)) [
    | inl ascends ↦
        ap (λ (x : PaxosConfigManager). x.config_timeline)
          (ok-injective (ground (arith, ascends, e, inc64_lem index w)))
    | inr not_above ↦ absurd (ground (arith, not_above, e))
  ]

  reconfigure_below :
      (cs : List IndexAndConfig) (c : IndexAndConfig)
      → index ≤ c.index
      → reconfigure index urls (record { config_timeline = cs ++ c ∷ [] }) ≡ thrown assertion
  unfolding reconfigure
  reconfigure_below [] c h = ground arith
  reconfigure_below (first ∷ rest) c h = ground (arith, last-append_one first rest c)

  -- A reconfiguration at an index holds from the next index on, and leaves the configurations up
  -- to its own index as they were.
  pub config-reconfigure :
      (m m' : PaxosConfigManager)
      → index + 1 < u64_mod
      → reconfigure index urls m ≡ ok m'
      → (j : ℕ) → config j m' ≡ (if ltb index j then ok (map slave_endpoint urls) else config j m)
  config-reconfigure m m' w e j =
      config-eq-governing j m'
      ∙ rw (reconfigured m.config_timeline m' w e)
          (ground (arith, governing-append j m.config_timeline entered, config-eq-governing j m))

-- The index of a reconfiguration must be above the one that the last one was entered with, since
-- that is the index of the last one and one more: reconfigurations at consecutive indices fail the
-- assertion.
pub reconfigure_next :
    (index : ℕ) (urls next_urls : List Bytes) (m m' : PaxosConfigManager)
    → index + 1 < u64_mod
    → reconfigure index urls m ≡ ok m'
    → reconfigure (index + 1) next_urls m' ≡ thrown assertion
reconfigure_next index urls next_urls m m' w e =
    subst
      (λ cs. reconfigure (index + 1) next_urls (record { config_timeline = cs }) ≡ thrown assertion)
      (sym (reconfigured index urls m.config_timeline m' w e))
      (reconfigure_below (index + 1) next_urls m.config_timeline (entered index urls) (omega arith))
