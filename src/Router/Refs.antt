-- ===== src/Router/Refs.antt =====
-- router/mod.rs: reference tokens, which keep a worker from being evicted.
use ida_mcp.Base.{
  ℕ, Option, none, some, List, [], ◌∷◌, ◌++◌, Text, text, hex, length, unwrap_or, text_key,
}
use ida_mcp.Base.Map
use ida_mcp.Router.{RouterInner}
use ida_mcp.Router.Registry.{next_counter, set_insert, set_remove}

-- `format!("{now:x}-{pid:x}-{nonce:x}")` and `format!("cli-{now:x}-{nonce:x}")`.
unfoldable pub ref_token : ℕ → ℕ → ℕ → Text
ref_token now pid nonce = (hex now ++ b'-' ∷ hex pid) ++ b'-' ∷ hex nonce

unfoldable pub cli_token : ℕ → ℕ → Text
cli_token now nonce = (text "cli-" ++ hex now) ++ b'-' ∷ hex nonce

abbrev pub tokens_of : Text → RouterInner → List Text
tokens_of h inner = unwrap_or (Map.get h inner.ref_tokens) []

unfoldable pub add_ref : Text → Text → RouterInner → RouterInner
add_ref token h inner = record inner {
  token_to_handle = Map.insert token h inner.token_to_handle;
  ref_tokens = Map.insert h (set_insert token (tokens_of h inner)) inner.ref_tokens;
}

-- The branch of `spawn_worker` for a path that is already open.
unfoldable pub share_handle : Text → ℕ → ℕ → RouterInner → RouterInner × Text
unfolding add_ref
share_handle h now pid inner =
    let token = ref_token now pid inner.req_counter in
    (add_ref token h (record inner { req_counter = next_counter inner.req_counter }), token)

unfoldable pub issue_ref_for_handle : Text → ℕ → RouterInner → RouterInner × Text
unfolding add_ref
issue_ref_for_handle h now inner =
    let token = cli_token now inner.req_counter in
    (add_ref token h (record inner { req_counter = next_counter inner.req_counter }), token)

unfoldable pub release_from : Text → Text → RouterInner → RouterInner × Option (Text × ℕ)
release_from token h inner = elim (Map.get h inner.ref_tokens) [
  | none ↦ (record inner { token_to_handle = Map.remove token inner.token_to_handle }, some (h, 0))
  | some tokens ↦ (
    record inner {
      token_to_handle = Map.remove token inner.token_to_handle;
      ref_tokens = Map.insert h (set_remove token tokens) inner.ref_tokens;
    },
    some (h, length (set_remove token tokens)),
  )
]

-- The handle and how many references to it are left; nothing for a token that is not known.
unfoldable pub release_ref_token : Text → RouterInner → RouterInner × Option (Text × ℕ)
release_ref_token token inner = elim (Map.get token inner.token_to_handle) [
  | none ↦ (inner, none)
  | some h ↦ release_from token h inner
]

unfoldable pub handle_for_token : Text → RouterInner → Option Text
handle_for_token token inner = Map.get token inner.token_to_handle
