-- ===== src/Router/Callee.antt =====
-- router/mod.rs: which function of an sBPF program detect_and_rename_sbpf_entry renames.
use ida_mcp.Base.{
  ◌<◌, ◌≡◌, refl, subst, ◌⊎◌, inl, inr, Bool, true, false, not, ◌&&◌, none, some, List, [], ◌∷◌,
  Text, text, text_eq, any, filter, ltb, Bool-cases, Option-cases, arith, HashMap, text_key, All,
  All-filter, unwrap_or,
}
use ida_mcp.Json.{Value, text_at}
use ida_mcp.Router.Entry.{
  list_at, addr_to_name, is_syscall, is_from, targets, direct, calls_from, busier,
  process_instruction,
}

-- An edge of the graph from one address to another.
abbrev pub is_edge : Text → Text → Value → Bool
is_edge from to e =
    is_from from e && elim (text_at (text "to") e) [ none ↦ false | some t ↦ text_eq t to ]

abbrev IsCalled : Text → List Value → Text → Type 0
IsCalled from edges to = any (is_edge from to) edges ≡ true

later-All :
    (from : Text) (e : Value) (edges : List Value) (ts : List Text)
    → All (IsCalled from edges) ts
    → All (IsCalled from (e ∷ edges)) ts
later-All from e edges [] h = tt
later-All from e edges (t ∷ ts) h = (ground (arith, h.0), later-All from e edges ts h.1)

targets-All : (from : Text) (edges : List Value) → All (IsCalled from edges) (targets from edges)
unfolding targets
targets-All from [] = tt
targets-All from (e ∷ edges) = elim (Bool-cases (is_from from e)) [
  | inr other ↦ rw other (later-All from e edges (targets from edges) (targets-All from edges))
  | inl leaves ↦ elim (Option-cases (text_at (text "to") e)) [
    | inl nowhere ↦
        rw (leaves, nowhere) (later-All from e edges (targets from edges) (targets-All from edges))
    | inr (t, goes) ↦
        rw (leaves, goes)
          (ground arith, later-All from e edges (targets from edges) (targets-All from edges))
  ]
]

-- The names that the graph gives.
abbrev pub names_of : Value → HashMap Text Text
names_of callgraph = addr_to_name (unwrap_or (list_at (text "nodes") callgraph) []) []

pub record IsChosen (ep_hex : Text) (callgraph : Value) (edges : List Value) (pi_hex : Text)
    : Type 0 where
  pub other : Text
  pub two :
      (direct (names_of callgraph) ep_hex edges ≡ pi_hex ∷ other ∷ [])
      ⊎ (direct (names_of callgraph) ep_hex edges ≡ other ∷ pi_hex ∷ [])
  pub busiest : calls_from edges other < calls_from edges pi_hex
  pub called : any (is_edge ep_hex pi_hex) edges ≡ true
  pub no_syscall : is_syscall (names_of callgraph) pi_hex ≡ false

unselected :
    (names : HashMap Text Text) (ts : List Text)
    → All (λ a. is_syscall names a ≡ false) (filter (λ a. not (is_syscall names a)) ts)
unselected names [] = tt
unselected names (t ∷ ts) = elim (Bool-cases (is_syscall names t)) [
  | inl syscall ↦ rw syscall (unselected names ts)
  | inr plain ↦ rw plain (plain, unselected names ts)
]

busier-IsChosen :
    (ep_hex : Text) (callgraph : Value) (edges : List Value) (ts : List Text) (pi_hex : Text)
    → direct (names_of callgraph) ep_hex edges ≡ ts
    → All (λ a. any (is_edge ep_hex a) edges ≡ true) ts
    → All (λ a. is_syscall (names_of callgraph) a ≡ false) ts
    → busier edges ts ≡ some pi_hex
    → IsChosen ep_hex callgraph edges pi_hex
busier-IsChosen ep_hex callgraph edges [] pi_hex two called plain h = absurd (ground arith)
busier-IsChosen ep_hex callgraph edges (a ∷ []) pi_hex two called plain h = absurd (ground arith)
busier-IsChosen ep_hex callgraph edges (a ∷ b ∷ c ∷ ts) pi_hex two called plain h =
    absurd (ground arith)
busier-IsChosen ep_hex callgraph edges (a ∷ b ∷ []) pi_hex two called plain h =
    elim (Bool-cases (ltb (calls_from edges b) (calls_from edges a))) [
      | inl first ↦
          let same : a ≡ pi_hex = ground arith in
          subst (IsChosen ep_hex callgraph edges) same (record {
            other = b;
            two = inl two;
            busiest = ground arith;
            called = called.0;
            no_syscall = plain.0;
          })
      | inr second ↦
          let same : b ≡ pi_hex = ground arith in
          subst (IsChosen ep_hex callgraph edges) same (record {
            other = a;
            two = inr two;
            busiest = ground arith;
            called = called.1.0;
            no_syscall = plain.1.0;
          })
    ]

-- The function that is taken to be process_instruction is one of exactly two targets of calls
-- of the entry point that are no system calls, and it makes more calls than the other.
pub process_instruction-IsChosen :
    (ep_hex : Text) (callgraph : Value) (pi_hex : Text)
    → process_instruction ep_hex callgraph ≡ some pi_hex
    → (edges : List Value) × (list_at (text "edges") callgraph ≡ some edges)
      × IsChosen ep_hex callgraph edges pi_hex
unfolding process_instruction
process_instruction-IsChosen ep_hex callgraph pi_hex h =
    elim (Option-cases (list_at (text "edges") callgraph)) [
      | inl nothing ↦ absurd (ground arith)
      | inr (edges, e) ↦ (
        edges,
        e,
        busier-IsChosen ep_hex callgraph edges _ pi_hex refl
            (unfold direct in
              All-filter (IsCalled ep_hex edges) (λ a. not (is_syscall (names_of callgraph) a))
                (targets ep_hex edges) (targets-All ep_hex edges))
            (unfold direct in unselected (names_of callgraph) (targets ep_hex edges))
            (ground arith),
      )
    ]
