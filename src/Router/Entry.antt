-- ===== src/Router/Entry.antt =====
-- router/mod.rs: `detect_and_rename_sbpf_entry`: which function of an sBPF program is taken to be
-- `process_instruction`. What the worker answers to the three requests is an argument.
use ida_mcp.Base.{
  ℕ, ◌+◌, ◌*◌, ◌-◌, ◌^◌, Bool, false, not, ◌&&◌, ◌||◌, Option, none, some, List, [], ◌∷◌, ◌++◌,
  Text, text, text_eq, filter, count, hex, ltb, leb, ◌==◌, if◌then◌else◌, HashMap, text_key,
  unwrap_or,
}
use ida_mcp.Base.Map
use ida_mcp.Base.Str.{without_plus}
use ida_mcp.Files.Names.{starts_with}
use ida_mcp.Json
use ida_mcp.Json.{Value, Items, nil, item, string, number, object, field, end, as_array, text_at}

abbrev pub list_of : Items → List Value
list_of nil = []
list_of (item v vs) = v ∷ list_of vs

abbrev pub list_at : Text → Value → Option (List Value)
list_at key v = elim (Json.get key v) [
  | none ↦ none
  | some w ↦ elim (as_array w) [ none ↦ none | some vs ↦ some (list_of vs) ]
]

-- `trim_start_matches("0x")` and `u64::from_str_radix(s, 16)`.
abbrev pub trim_0x : Text → Text
trim_0x [] = []
trim_0x (c ∷ []) = c ∷ []
trim_0x (c ∷ d ∷ s) = let rest = trim_0x s in if (c == b'0') && (d == b'x') then rest else c ∷ d ∷ s

abbrev pub digit_of : ℕ → Option ℕ
digit_of c =
    if leb b'0' c && leb c b'9'
    then some (c - b'0')
    else if leb b'a' c && leb c b'f'
    then some (c - b'a' + 10)
    else if leb b'A' c && leb c b'F'
    then some (c - b'A' + 10)
    else none

abbrev pub push_digit : ℕ → Option ℕ → Option ℕ
push_digit n none = none
push_digit n (some d) = if ltb (16 * n + d) (2 ^ 64) then some (16 * n + d) else none

unfoldable pub parse_hex : ℕ → Text → Option ℕ
parse_hex n [] = some n
parse_hex n (c ∷ s) = elim (push_digit n (digit_of c)) [ none ↦ none | some m ↦ parse_hex m s ]

abbrev pub radix_16 : Text → Option ℕ
radix_16 [] = none
radix_16 (c ∷ s) = parse_hex 0 (c ∷ s)

unfoldable pub entry_address : Option Value → Option ℕ
unfolding parse_hex
entry_address none = none
entry_address (some v) = elim (text_at (text "address") v) [
  | none ↦ none
  | some s ↦ radix_16 (without_plus (trim_0x s))
]

-- The names of the nodes by address; a later node of the same address replaces an earlier one.
abbrev pub name_node : Option Text → Option Text → HashMap Text Text → HashMap Text Text
name_node (some address) (some name) m = Map.insert address name m
name_node (some address) none m = m
name_node none name m = m

unfoldable pub addr_to_name : List Value → HashMap Text Text → HashMap Text Text
addr_to_name [] m = m
addr_to_name (n ∷ ns) m =
    addr_to_name ns (name_node (text_at (text "address") n) (text_at (text "name") n) m)

abbrev pub is_syscall : HashMap Text Text → Text → Bool
is_syscall names address = elim (Map.get address names) [
  | none ↦ false
  | some name ↦ starts_with (text "_sol_") name || text_eq name (text "_abort")
]

abbrev pub is_from : Text → Value → Bool
is_from address e = elim (text_at (text "from") e) [ none ↦ false | some a ↦ text_eq a address ]

-- `filter_map`: the targets of the edges that leave an address.
abbrev pub push_target : Option Text → List Text → List Text
push_target none ts = ts
push_target (some t) ts = t ∷ ts

unfoldable pub targets : Text → List Value → List Text
targets address [] = []
targets address (e ∷ es) =
    let rest = targets address es in
    if is_from address e then push_target (text_at (text "to") e) rest else rest

unfoldable pub direct : HashMap Text Text → Text → List Value → List Text
unfolding targets
direct names ep_hex edges = filter (λ a. not (is_syscall names a)) (targets ep_hex edges)

abbrev pub calls_from : List Value → Text → ℕ
calls_from edges address = count (is_from address) edges

-- Of exactly two callees the one with more calls.
abbrev pub busier : List Value → List Text → Option Text
busier edges (a ∷ b ∷ []) =
    if calls_from edges a == calls_from edges b
    then none
    else some (if ltb (calls_from edges b) (calls_from edges a) then a else b)
busier edges [] = none
busier edges (a ∷ []) = none
busier edges (a ∷ b ∷ c ∷ rest) = none

abbrev pub hex_address : ℕ → Text
hex_address n = text "0x" ++ hex n

unfoldable pub process_instruction : Text → Value → Option Text
unfolding direct addr_to_name
process_instruction ep_hex callgraph = elim (list_at (text "edges") callgraph) [
  | none ↦ none
  | some edges ↦
      busier edges
        (direct (addr_to_name (unwrap_or (list_at (text "nodes") callgraph) []) []) ep_hex edges)
]

abbrev pub rename_params : Text → Value
rename_params pi_hex = object (
    field (text "address") (string pi_hex)
      (field (text "new_name") (string (text "process_instruction")) end))

abbrev pub graph_params : Text → Value
graph_params ep_hex = object (
    field (text "roots") (string ep_hex)
      (field (text "max_depth") (number 2) (field (text "max_nodes") (number 256) end)))

-- The parameters of the renaming, if it comes to one; `callgraph` answers the second request.
unfoldable pub detect_and_rename_sbpf_entry : Option Value → (Value → Option Value) → Option Value
unfolding entry_address process_instruction
detect_and_rename_sbpf_entry found callgraph = elim (entry_address found) [
  | none ↦ none
  | some ep ↦ elim (callgraph (graph_params (hex_address ep))) [
    | none ↦ none
    | some cg ↦ elim (process_instruction (hex_address ep) cg) [
      | none ↦ none
      | some pi_hex ↦ some (rename_params pi_hex)
    ]
  ]
]
