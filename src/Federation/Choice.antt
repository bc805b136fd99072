-- ===== src/Federation/Choice.antt =====
-- federation.rs: what makes a node ready, and which nodes are chosen in which order.
use ida_mcp.Base.{
  ℕ, ◌≡◌, refl, ◌∙◌, ◌⊎◌, inl, inr, Bool, true, false, ◌&&◌, Option, some, List, [], ◌∷◌, map, Text,
  text, filter, count, count-filter, unwrap_or, Bool-cases, Option-cases, arith,
}
use ida_mcp.Base.Sort.{sort, count-sort, IsSorted}
use ida_mcp.Federation.{
  FederationNodeStatus, FederationNodeRecord, Fallible, ok, err, Uri, Network, Float, is_http,
  is_stale, is_ok, answer_of, asked, probe_host, probe_uri, probe_record, ready_nodes, ranks_before,
  probe_uri, choose_ready_nodes,
}
use ida_mcp.Federation.Ranks.{IsOrdered, ready_nodes-IsRanked, sort-IsSorted_ranked}
use ida_mcp.Views.{FederationNodeConfig, supports_request}

count-map {ℓ κ} :
    {A : Type ℓ} {B : Type κ} (p : B → Bool) (f : A → B) (xs : List A)
    → count p (map f xs) ≡ count (λ x. p (f x)) xs
count-map p f [] = refl
count-map p f (x ∷ xs) = ground (arith, count-map p f xs)

count_congr {ℓ} :
    {A : Type ℓ} (p q : A → Bool) (xs : List A) → ((x : A) → p x ≡ q x) → count p xs ≡ count q xs
count_congr p q [] h = refl
count_congr p q (x ∷ xs) h = ground (arith, h x, count_congr p q xs h)

module _ {F : Type 0} (float : Float F) (net : Network) (ttl now : ℕ) where
  -- A host that can be asked, and its answer to /readyz.
  abbrev pub AnswersReady : FederationNodeRecord → Type 0
  AnswersReady r =
      (uri : Uri) × (net.parse r.config.url ≡ ok uri)
      × (is_http uri.scheme ≡ true)
      × ((host : Text) × (uri.host ≡ some host)
          × (is_ok (answer_of float net host (unwrap_or uri.port 80) (text "/readyz")) ≡ true))

  probe_host-ready :
      (uri : Uri) (r : FederationNodeRecord)
      → (probe_host float net uri r).ready ≡ true
      → (host : Text) × (uri.host ≡ some host)
        × (is_ok (answer_of float net host (unwrap_or uri.port 80) (text "/readyz")) ≡ true)
  unfolding asked
  probe_host-ready uri r h = elim (Option-cases uri.host) [
    | inl missing ↦ absurd (ground arith)
    | inr (host, e) ↦ (host, e, ground arith)
  ]

  Fallible-cases : (x : Fallible Uri) → ((uri : Uri) × (x ≡ ok uri)) ⊎ ((e : Text) × (x ≡ err e))
  Fallible-cases (ok uri) = inl (uri, refl)
  Fallible-cases (err e) = inr (e, refl)

  -- A probe finds a node ready exactly if the node is enabled, its heartbeat, if it lives by
  -- one, has not expired, its address is one of http with a host, and that host answers /readyz
  -- with ok.
  pub probe_record-ready :
      (r : FederationNodeRecord)
      → ((probe_record float net ttl now r).ready ≡ true
          → (r.config.enabled ≡ true) × (is_stale ttl now r ≡ false) × AnswersReady r)
        × (r.config.enabled ≡ true
            → is_stale ttl now r ≡ false
            → AnswersReady r
            → (probe_record float net ttl now r).ready ≡ true)
  unfolding probe_record asked
  probe_record-ready r = (forth, back)
    where
      asks :
          r.config.enabled ≡ true
          → is_stale ttl now r ≡ false
          → probe_record float net ttl now r ≡ probe_uri float net (net.parse r.config.url) r
      asks on fresh = rw (on, fresh, probe_record) refl

      forth :
          (probe_record float net ttl now r).ready ≡ true
          → (r.config.enabled ≡ true) × (is_stale ttl now r ≡ false) × AnswersReady r
      forth h = elim (Bool-cases r.config.enabled) [
        | inr off ↦ absurd (ground arith)
        | inl on ↦ elim (Bool-cases (is_stale ttl now r)) [
          | inl old ↦ absurd (ground arith)
          | inr fresh ↦ elim (Fallible-cases (net.parse r.config.url)) [
            | inr (e, bad) ↦ absurd (ground (arith, asks on fresh))
            | inl (uri, good) ↦ elim (Bool-cases (is_http uri.scheme)) [
              | inr other ↦ absurd (ground (arith, asks on fresh))
              | inl http ↦ (
                on,
                fresh,
                (uri, good, http, probe_host-ready uri r (ground (arith, asks on fresh))),
              )
            ]
          ]
        ]
      ]

      back :
          r.config.enabled ≡ true
          → is_stale ttl now r ≡ false
          → AnswersReady r
          → (probe_record float net ttl now r).ready ≡ true
      back on fresh (uri, good, http, (host, at, yes_ready)) =
          ground (arith, asks on fresh, good, http, at, yes_ready)

  -- A record that the choice may take.
  abbrev pub is_candidate : Option Text → Option Text → FederationNodeRecord → Bool
  is_candidate method tenant r =
      r.config.enabled
      && (supports_request r.config method tenant && (probe_record float net ttl now r).ready)

  abbrev pub with_status : FederationNodeRecord → FederationNodeConfig × FederationNodeStatus F
  with_status r = (r.config, probe_record float net ttl now r)

  count-ready_nodes :
      (p : FederationNodeConfig × FederationNodeStatus F → Bool) (rs : List FederationNodeRecord)
      → count p (ready_nodes float net ttl now rs)
        ≡ count (λ r. (probe_record float net ttl now r).ready && p (with_status r)) rs
  unfolding ready_nodes
  count-ready_nodes p [] = refl
  count-ready_nodes p (r ∷ rs) = elim (Bool-cases (probe_record float net ttl now r).ready) [
    | inl is ↦ rw is (ground (arith, count-ready_nodes p rs))
    | inr not_ready ↦ rw not_ready (count-ready_nodes p rs)
  ]

  -- Where f64 arithmetic keeps to what IEEE says of values that are not negative and no NaN
  -- (sums, quotients by and inverses of positive counts are such values again, and comparing
  -- them is a total order), the chosen nodes are those of the table that are enabled, support
  -- the request and are ready by their probe, each as often as it is there, in the order of
  -- their ranks.
  pub choose_ready_nodes_lem :
      (N : F → Type 0) (method tenant : Option Text) (nodes : List FederationNodeRecord)
      → IsOrdered float N
      → (ranked : List (FederationNodeConfig × FederationNodeStatus F)) × (choose_ready_nodes float
            net ttl now method tenant nodes
          ≡ map (λ x. x.0) ranked)
        × IsSorted (ranks_before float) ranked
        × ((p : FederationNodeConfig × FederationNodeStatus F → Bool)
            → count p ranked ≡ count (λ r. is_candidate method tenant r && p (with_status r)) nodes)
  unfolding choose_ready_nodes
  choose_ready_nodes_lem N method tenant nodes law = (
    sort (ranks_before float) (ready_nodes float net ttl now supported),
    refl,
    sort-IsSorted_ranked float N law (ready_nodes float net ttl now supported)
        (ready_nodes-IsRanked float N law net ttl now supported),
    λ p.
        count-sort (ranks_before float) p (ready_nodes float net ttl now supported)
        ∙ count-ready_nodes p supported
        ∙ count-filter (λ r. supports_request r.config method tenant)
            (λ r. (probe_record float net ttl now r).ready && p (with_status r))
            (filter (λ r. r.config.enabled) nodes)
        ∙ count-filter (λ r. r.config.enabled)
            (λ r.
              supports_request r.config method tenant
              && ((probe_record float net ttl now r).ready && p (with_status r)))
            nodes
        ∙ count_congr _ _ nodes (λ r. ground arith),
  )
    where
      supported : List FederationNodeRecord
      supported =
          filter (λ r. supports_request r.config method tenant)
            (filter (λ r. r.config.enabled) nodes)
