-- ===== src/Federation/Ranks.antt =====
-- federation.rs: the ranks that `choose_ready_nodes` compares, and what is asked of `f64`.
use ida_mcp.Base.{
  ℕ, ◌<◌, max, All, ltb, not, if◌then◌else◌, none, ◌≡◌, inl, inr, Bool, true, false, Option, some,
  List, [], ◌∷◌, text, unwrap_or, Bool-cases, Option-cases, arith,
}
use ida_mcp.Base.Sort.{sort, IsSorted, sort-IsSorted_on}
use ida_mcp.Federation.{
  FederationNodeStatus, FederationNodeRecord, Fallible, ok, err, Uri, Network, Float, is_http,
  is_stale, is_ok, answer_of, asked, probe_uri, unready, count_at, depth_at, push_ready,
  probe_record, ready_nodes, ranks_before, penalty, worker_score, compute_load_score, node_rank,
  probe_uri, unready, count_at, depth_at, push_ready,
}
use ida_mcp.Json.{Value}
use ida_mcp.Views.{FederationNodeConfig}

-- What IEEE arithmetic says of the values that are not negative and no NaN, which `N` stands for:
-- counts are among them, their sums are, their quotients and inverses are where the divisor is no
-- zero, and they are ordered. Nothing is said of a NaN.
pub record IsOrdered {F : Type 0} (float : Float F) (N : F → Type 0) : Type 0 where
  pub of_nat_number : (n : ℕ) → N (float.of_nat n)
  pub plus_number : (x y : F) → N x → N y → N (float.plus x y)
  pub divide_number : (n m : ℕ) → 0 < m → N (float.divide (float.of_nat n) (float.of_nat m))
  pub recip_number : (n : ℕ) → 0 < n → N (float.recip (float.of_nat n))
  pub is_greater_asym :
      (x y : F) → N x → N y → float.is_greater x y ≡ true → float.is_greater y x ≡ false
  pub is_greater_trans :
      (x y z : F)
      → N x
      → N y
      → N z
      → float.is_greater x y ≡ false
      → float.is_greater y z ≡ false
      → float.is_greater x z ≡ false

-- The ranks that a probe can lead to are numbers.
module _ {F : Type 0} (float : Float F) (N : F → Type 0) (law : IsOrdered float N) where
  -- A load score, where there is one, is a number.
  abbrev IsScore : Option F → Type 0
  IsScore none = Unit
  IsScore (some x) = N x

  penalty_number : (depth : Option ℕ) → N (penalty float depth)
  penalty_number depth = law.divide_number (unwrap_or depth 0) 100 (omega arith)

  worker_score-IsScore : (w m : Option ℕ) → IsScore (worker_score float w m)
  worker_score-IsScore none m = tt
  worker_score-IsScore (some n) none = tt
  worker_score-IsScore (some n) (some m) = elim (Bool-cases (ltb 0 m)) [
    | inl some_room ↦ rw some_room (law.divide_number n m (ground arith))
    | inr no_room ↦ rw no_room tt
  ]

  compute_load_score-IsScore : (w m r p : Option ℕ) → IsScore (compute_load_score float w m r p)
  unfolding compute_load_score
  compute_load_score-IsScore w m r p = summed (worker_score float w m) (worker_score-IsScore w m)
    where
      summed :
          (score : Option F)
          → IsScore score
          → IsScore (elim score [
            | none ↦ none
            | some x ↦ some (float.plus (float.plus x (penalty float r)) (penalty float p))
          ])
      summed none h = tt
      summed (some x) h =
          law.plus_number (float.plus x (penalty float r)) (penalty float p)
            (law.plus_number x (penalty float r) h (penalty_number r)) (penalty_number p)

  asked-IsScore :
      (statusz : Option Value) (healthy ready : Bool) (r : FederationNodeRecord)
      → IsScore (asked float statusz healthy ready r).load_score
  unfolding asked
  asked-IsScore statusz healthy ready r =
      compute_load_score-IsScore (count_at (text "worker_count") statusz)
        (count_at (text "max_workers") statusz) (depth_at (text "route_queue") statusz)
        (depth_at (text "prewarm_queue") statusz)

  probe_uri-IsScore :
      (net : Network) (uri : Fallible Uri) (r : FederationNodeRecord)
      → IsScore (probe_uri float net uri r).load_score
  probe_uri-IsScore net (err e) r = tt
  probe_uri-IsScore net (ok uri) r = elim (Bool-cases (is_http uri.scheme)) [
    | inr other ↦ rw other tt
    | inl http ↦ elim (Option-cases uri.host) [
      | inl missing ↦ rw http (rw missing tt)
      | inr (host, at) ↦
          let port = unwrap_or uri.port 80 in
          rw http (
            rw at (
              asked-IsScore (answer_of float net host port (text "/statusz"))
                (is_ok (answer_of float net host port (text "/healthz")))
                (is_ok (answer_of float net host port (text "/readyz"))) r))
    ]
  ]

  -- The early returns have no score.
  returned-IsScore :
      (off old : Bool) (r : FederationNodeRecord) (found : FederationNodeStatus F)
      → IsScore found.load_score
      → IsScore
          (if off
            then unready false (text "disabled") false r
            else if old
            then unready true (text "heartbeat expired") true r
            else found).load_score
  returned-IsScore true old r found h = tt
  returned-IsScore false true r found h = tt
  returned-IsScore false false r found h = h

  probe_record-IsScore :
      (net : Network) (ttl now : ℕ) (r : FederationNodeRecord)
      → IsScore (probe_record float net ttl now r).load_score
  unfolding probe_record
  probe_record-IsScore net ttl now r =
      returned-IsScore (not r.config.enabled) (is_stale ttl now r) r
        (probe_uri float net (net.parse r.config.url) r)
        (probe_uri-IsScore net (net.parse r.config.url) r)

  node_rank_number :
      (node : FederationNodeConfig) (status : FederationNodeStatus F)
      → IsScore status.load_score
      → N (node_rank float node status)
  unfolding node_rank
  node_rank_number node status h =
      law.plus_number (unwrap_or status.load_score (float.of_nat 10))
        (float.recip (float.of_nat (max node.weight 1))) (or_ten status.load_score h)
        (law.recip_number (max node.weight 1) (ground arith))
    where
      or_ten : (score : Option F) → IsScore score → N (unwrap_or score (float.of_nat 10))
      or_ten none h = law.of_nat_number 10
      or_ten (some x) h = h

  pub IsRanked : FederationNodeConfig × FederationNodeStatus F → Type 0
  IsRanked x = N (node_rank float x.0 x.1)

  push_ready-IsRanked :
      (node : FederationNodeConfig) (status : FederationNodeStatus F)
      (rest : List (FederationNodeConfig × FederationNodeStatus F))
      → IsScore status.load_score
      → All IsRanked rest
      → All IsRanked (push_ready float node status rest)
  unfolding IsRanked node_rank
  push_ready-IsRanked node status rest h hs = elim (Bool-cases status.ready) [
    | inl is ↦ rw is (node_rank_number node status h, hs)
    | inr not_ready ↦ rw not_ready hs
  ]

  pub ready_nodes-IsRanked :
      (net : Network) (ttl now : ℕ) (rs : List FederationNodeRecord)
      → All IsRanked (ready_nodes float net ttl now rs)
  unfolding ready_nodes
  ready_nodes-IsRanked net ttl now [] = tt
  ready_nodes-IsRanked net ttl now (r ∷ rs) =
      push_ready-IsRanked r.config (probe_record float net ttl now r)
        (ready_nodes float net ttl now rs) (probe_record-IsScore net ttl now r)
        (ready_nodes-IsRanked net ttl now rs)

  pub sort-IsSorted_ranked :
      (xs : List (FederationNodeConfig × FederationNodeStatus F))
      → All IsRanked xs
      → IsSorted (ranks_before float) (sort (ranks_before float) xs)
  unfolding IsRanked
  sort-IsSorted_ranked =
      sort-IsSorted_on (ranks_before float) IsRanked
        (λ x y px py h.
          ground (
            arith,
            h,
            law.is_greater_asym (node_rank float x.0 x.1) (node_rank float y.0 y.1) px py,
          ))
        (λ x y z px py pz h k. ground (
          arith,
          h,
          k,
          law.is_greater_trans (node_rank float x.0 x.1) (node_rank float y.0 y.1)
              (node_rank float z.0 z.1) px py pz,
        ))
